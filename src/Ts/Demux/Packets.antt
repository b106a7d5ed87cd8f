-- ===== src/Ts/Demux/Packets.antt =====
-- `packetizeSection` returns, whatever the section; and the PAT that an output is given.
use mahiron.Base.{
  ℕ, zero, suc, ◌+◌, ◌<◌, ◌≤◌, ◌≡◌, refl, ap, bit_and, bit_or, Bool, true, false, not, ◌&&◌, [],
  ◌∷◌, All, length, drop, ltb, ◌==◌, if◌then◌else◌, Option, none, some, arith, Bool-cases,
  Option-cases, inl, inr, length-drop,
}
use mahiron.Base.Bits.{and_0f_lt}
use mahiron.Base.Result.{Result, ok, ◌>>=◌}
use mahiron.Base.Assoc.{lookup}
use mahiron.Ts.Words.{Bytes, at}
use mahiron.Ts.Packet.{Packet}
use mahiron.Ts.Section.{Section}
use mahiron.Ts.Pat.{Pat, build_pat_section}
use mahiron.Ts.Demux.{
  DemuxServiceOutput, packet_of, packetize_loop, packetize_section, rebuild_pat_output,
}

-- The value of a result that is one, and what holds of it.
pub record Gives {ℓ} {A : Type ℓ} (P : A → Type 0) (r : Result A) : Type ℓ where
  pub result : A
  pub there : r ≡ ok result
  pub holds : P result

-- The fourth byte says: no adaptation field, a payload, and some counter.
abbrev pub IsHeaded : Packet → Type 0
IsHeaded p = (c : ℕ) × (4 ≤ length p) × (at p 3 ≡ bit_or 0x10 c) × (c < 16)

fuel_left :
    (first : Bool) (remaining : Bytes) (fuel : ℕ)
    → (not first && length remaining == 0) ≡ false
    → length remaining + (if first then 1 else 0) < suc fuel
    → length (drop (if first then 183 else 184) remaining) + 0 < fuel
fuel_left first remaining fuel go h =
    let short = length-drop (if first then 183 else 184) remaining in ground arith

packetize_loop-Gives :
    (fuel id counter : ℕ) (first : Bool) (remaining : Bytes)
    → length remaining + (if first then 1 else 0) < fuel
    → Gives
        (λ packets. All IsHeaded packets × (first ≡ true → 0 < length packets))
        (packetize_loop fuel id counter first remaining)
unfolding packetize_loop packet_of
packetize_loop-Gives zero id counter first remaining h = absurd (omega arith)
packetize_loop-Gives (suc fuel) id counter first remaining h =
    elim (Bool-cases (not first && length remaining == 0)) [
      | inl stop ↦
          rw (stop, packetize_loop)
            (record { result = []; there = refl; holds = (tt, ground (arith, stop)) })
      | inr go ↦
          let later =
            packetize_loop-Gives fuel id (bit_and (counter + 1) 0x0f) false
              (drop (if first then 183 else 184) remaining) (fuel_left first remaining fuel go h) in
          rw (go, packetize_loop)
            (record {
              result = packet_of id counter first remaining ∷ later.result;
              there =
                  ap (λ r. r >>= λ rest. ok (packet_of id counter first remaining ∷ rest))
                    later.there;
              holds = (
                ((bit_and counter 0x0f, omega arith, refl, and_0f_lt counter), later.holds.0),
                λ e. omega arith,
              );
            })
    ]

packetize_section-Gives :
    (id : ℕ) (section : Section) (counter : ℕ)
    → Gives
        (λ packets. All IsHeaded packets × (0 < length packets))
        (packetize_section id section counter)
unfolding packetize_section
packetize_section-Gives id section counter =
    let g =
      packetize_loop-Gives (suc (suc (length section))) id counter true section (omega arith) in
    record { result = g.result; there = g.there; holds = (g.holds.0, g.holds.1 refl) }

-- The PIDs that a PAT names have 13 bits.
abbrev pub IsSane : Option Pat → Type 0
IsSane none = Unit {0}
IsSane (some p) =
    (service pmt_pid : ℕ) → lookup service p.programs ≡ some pmt_pid → pmt_pid ≤ 0x1fff

-- An output with its packets: the next one is one of them, and its counter has four bits.
pub record IsOutput (output : DemuxServiceOutput) : Type 0 where
  pub headed : All IsHeaded output.pat_packets
  pub inside : 0 < length output.pat_packets → output.pat_index < length output.pat_packets
  pub low : output.pat_counter < 16

pub rebuild_pat_output-Gives :
    (p : Option Pat) (generation service : ℕ) (output : DemuxServiceOutput)
    → IsSane p
    → IsOutput output
    → Gives
        (λ o. IsOutput o × (o.pat_counter ≡ output.pat_counter))
        (rebuild_pat_output p generation service output)
unfolding rebuild_pat_output build_pat_section
rebuild_pat_output-Gives none generation service output sane o = record {
  result = output;
  there = refl;
  holds = (o, refl);
}
rebuild_pat_output-Gives (some p) generation service output sane o =
    elim (Option-cases (lookup service p.programs)) [
      | inl n ↦
          rw (n, rebuild_pat_output) (record { result = output; there = refl; holds = (o, refl) })
      | inr (pmt_pid, q) ↦
          let fits : ltb 0x1fff pmt_pid ≡ false =
            let small = sane service pmt_pid q in ground arith in
          let g = packetize_section-Gives 0x00 _ 0 in
          rw (q, rebuild_pat_output)
            (rw fits (record {
              result = record output {
                pat_packets = g.result;
                pat_index = 0;
                generation = generation;
              };
              there =
                  ap
                    (λ r. r >>= λ packets. ok (record output {
                      pat_packets = packets;
                      pat_index = 0;
                      generation = generation;
                    }))
                    g.there;
              holds = (record { headed = g.holds.0; inside = λ h. h; low = o.low }, refl);
            }))
    ]
