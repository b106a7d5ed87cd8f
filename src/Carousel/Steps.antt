-- ===== src/Carousel/Steps.antt =====
-- The carousel as a state machine: what a receiver does with it, and what holds in every state that
-- it reaches from `NewDSMCCCarousel`.
use mahiron.Base.{ℕ, ◌≤◌, ◌<◌, ◌^◌, ◌≡◌, refl, ◌∙◌, length, arith, All}
use mahiron.Carousel.{Limits, Dii, Ddb, Module, Carousel, with_defaults, new_carousel, observe_dii}
use mahiron.Carousel.Blocks.{observe_ddb, release_completed_payload, restore}
use mahiron.Carousel.Weight.{weight, flight_of, payload_of}
use mahiron.Carousel.Budget.{IsSane, IsWithin}
use mahiron.Carousel.Announce.{IsInfo}
use mahiron.Carousel.Observe.{observe_dii-IsWithin}
use mahiron.Carousel.Release.{restore-Keeps, release_completed_payload-Keeps}
use mahiron.Carousel.Complete.{Keeps, observe_ddb-Keeps}

-- One call of a method that changes the state. Sizes are uint32, a restored buffer is shorter than 4 GiB.
pub data Step : Carousel → Carousel → Type 0 where
  dii_seen : (dii : Dii) (c : Carousel) → All IsInfo dii.modules → Step c (observe_dii dii c).0
  ddb_seen : (ddb : Ddb) (c : Carousel) → Step c (observe_ddb ddb c).0
  restored : (item : Module) (c : Carousel) → length item.bytes < 2 ^ 32 → Step c (restore item c).0
  released : (id : ℕ) (c : Carousel) → Step c (release_completed_payload id c).0

-- The states that a new carousel reaches.
pub data Reachable (limits : Limits) : Carousel → Type 0 where
  start : Reachable limits (new_carousel limits)
  then_ : {c c' : Carousel} → Reachable limits c → Step c c' → Reachable limits c'

Step-Keeps : {c c' : Carousel} → Step c c' → IsWithin c → Keeps c c'
Step-Keeps (dii_seen dii c a) w = observe_dii-IsWithin dii c a w
Step-Keeps (ddb_seen ddb c) w = observe_ddb-Keeps ddb c w
Step-Keeps (restored item c short) w = restore-Keeps item c short w
Step-Keeps (released id c) w = release_completed_payload-Keeps id c w

pub new_carousel-IsWithin :
    (limits : Limits) → IsSane (with_defaults limits) → IsWithin (new_carousel limits)
unfolding new_carousel weight
new_carousel-IsWithin limits sane = (
  record {
    sane = sane;
    unique = tt;
    each = tt;
    flight = refl;
    payload = refl;
    flight_bound = omega arith;
    payload_bound = omega arith;
  },
  omega arith,
)

pub Reachable-Keeps :
    {limits : Limits} {c : Carousel}
    → IsSane (with_defaults limits)
    → Reachable limits c
    → IsWithin c × (c.limits ≡ with_defaults limits)
Reachable-Keeps {limits} sane start =
    (new_carousel-IsWithin limits sane, unfold new_carousel in refl)
Reachable-Keeps sane (then_ before s) =
    let (w, l) = Reachable-Keeps sane before in let (w', l') = Step-Keeps s w in (w', l' ∙ l)

-- After any sequence of DIIs, DDBs, restored and released modules on a new carousel, the in-flight
-- counter is the sum of the sizes of the incomplete modules, the other counter is the sum of the
-- payload bytes that completed modules hold, and each is at most its limit. The two limits are below
-- 2 ^ 63, the announced sizes are uint32 and a restored payload is shorter than 2 ^ 32 bytes.
pub Reachable-budgets :
    (limits : Limits) (c : Carousel)
    → IsSane (with_defaults limits)
    → Reachable limits c
    → (c.in_flight_bytes ≡ weight flight_of c.modules)
      × (c.completed_bytes ≡ weight payload_of c.modules)
      × (c.in_flight_bytes ≤ (with_defaults limits).max_in_flight_bytes)
      × (c.completed_bytes ≤ (with_defaults limits).max_completed_bytes)
Reachable-budgets limits c sane r =
    let ((b, below), l) = Reachable-Keeps sane r in
    let bound = b.flight_bound in (b.flight, b.payload, rw (← l) bound, rw (← l) below)
