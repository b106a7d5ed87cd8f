-- ===== src/Ts/TableId.antt =====
-- ts/psi.go: the table identifiers.
use mahiron.Base.{ℕ}

abbrev pub pat : ℕ
pat = 0x00

abbrev pub cat : ℕ
cat = 0x01

abbrev pub pmt : ℕ
pmt = 0x02

abbrev pub sdt0 : ℕ
sdt0 = 0x42

abbrev pub sdt1 : ℕ
sdt1 = 0x46

abbrev pub bit : ℕ
bit = 0xc4

abbrev pub tot : ℕ
tot = 0x73

abbrev pub dsmcc_stream : ℕ
dsmcc_stream = 0x3d

abbrev pub nit0 : ℕ
nit0 = 0x40

abbrev pub nit1 : ℕ
nit1 = 0x41

abbrev pub dsmcc_dii : ℕ
dsmcc_dii = 0x3b

abbrev pub dsmcc_ddb : ℕ
dsmcc_ddb = 0x3c
