-- ===== src/Search/TtEntry/Meta.antt =====
-- The metadata word: three slots of two bytes that do not disturb each other.
use rfish.Prelude.{ℕ, zero, suc, ◌+◌, ◌*◌, ◌/◌, ◌%◌, ◌^◌, ◌<◌, ◌≡◌, ◌≢◌, arith}
use rfish.Prelude.{bit_or, refl}
use rfish.Prelude.Bits.{word, bit_and_gap, bit_or_disjoint, bit_or_fields, bit_or-zero}
use native.Mathlib.Nat.{one-le-pow}
use rfish.Search.TtEntry.{unpack_meta, pack_meta}

-- Two bytes are put between a high field and `s` low bits.
insert_bytes :
    (s hi lo d g : ℕ)
    → lo < 2 ^ s
    → d < 256
    → g < 256
    → bit_or (bit_or (word s (hi * 65536) lo) (d * 2 ^ s)) (g * 256 * 2 ^ s)
      ≡ word s (hi * 65536 + g * 256 + d) lo
insert_bytes s hi lo d g hl hd hg = ground (
  arith,
  one-le-pow s 2 (omega arith),
  bit_or_fields s (hi * 65536) lo d 0,
  bit_or_disjoint 16 hi d,
  bit_or_fields s (hi * 65536 + d) lo (g * 256) 0,
  bit_or-zero lo,
  bit_or_fields 8 (hi * 256) d g 0,
  bit_or_disjoint 8 hi g,
  bit_or-zero d,
)

module _ (meta d g : ℕ) (hm : meta < 2 ^ 64) (hd : d < 256) (hg : g < 256) where
  pack_meta-0 : pack_meta meta 0 d g ≡ meta / 65536 * 65536 + g * 256 + d
  unfolding pack_meta
  pack_meta-0 = ground (arith, bit_and_gap 16 48 0 meta, insert_bytes 0 (meta / 65536) 0 d g)

  pack_meta-1 :
      pack_meta meta 1 d g ≡ (meta / 4294967296 * 65536 + g * 256 + d) * 65536 + meta % 65536
  unfolding pack_meta
  pack_meta-1 =
      ground
        (arith, bit_and_gap 32 32 16 meta, insert_bytes 16 (meta / 4294967296) (meta % 65536) d g)

  pack_meta-2 :
      pack_meta meta 2 d g
      ≡ (meta / 281474976710656 * 65536 + g * 256 + d) * 4294967296 + meta % 4294967296
  unfolding pack_meta
  pack_meta-2 = ground (
    arith,
    bit_and_gap 48 16 32 meta,
    insert_bytes 32 (meta / 281474976710656) (meta % 4294967296) d g,
  )

-- Every byte of the metadata is a byte.
pub unpack_meta-lt :
    (meta slot : ℕ) → ((unpack_meta meta slot).0 < 256) × ((unpack_meta meta slot).1 < 256)
unfolding unpack_meta
unpack_meta-lt meta slot = omega arith

-- The word stays a word.
pub pack_meta-lt :
    (meta slot d g : ℕ)
    → meta < 2 ^ 64
    → slot < 3
    → d < 256
    → g < 256
    → pack_meta meta slot d g < 2 ^ 64
pack_meta-lt meta zero d g hm hs hd hg = omega (arith, pack_meta-0 meta d g hm hd hg)
pack_meta-lt meta (suc zero) d g hm hs hd hg = omega (arith, pack_meta-1 meta d g hm hd hg)
pack_meta-lt meta (suc (suc zero)) d g hm hs hd hg = omega (arith, pack_meta-2 meta d g hm hd hg)
pack_meta-lt meta (suc (suc (suc s))) d g hm hs hd hg = absurd (omega arith)

-- In a 64-bit metadata word, the slot that was packed holds the two bytes.
pub unpack-pack_self :
    (meta slot d g : ℕ)
    → meta < 2 ^ 64
    → slot < 3
    → d < 256
    → g < 256
    → unpack_meta (pack_meta meta slot d g) slot ≡ (d, g)
unfolding unpack_meta
unpack-pack_self meta zero d g hm hs hd hg = ground (arith, pack_meta-0 meta d g hm hd hg)
unpack-pack_self meta (suc zero) d g hm hs hd hg = ground (arith, pack_meta-1 meta d g hm hd hg)
unpack-pack_self meta (suc (suc zero)) d g hm hs hd hg =
    ground (arith, pack_meta-2 meta d g hm hd hg)
unpack-pack_self meta (suc (suc (suc s))) d g hm hs hd hg = absurd (omega arith)

-- In a 64-bit metadata word, every slot but the one packed holds what it held.
pub unpack-pack_ne :
    (meta slot other d g : ℕ)
    → meta < 2 ^ 64
    → slot < 3
    → other < 3
    → slot ≢ other
    → d < 256
    → g < 256
    → unpack_meta (pack_meta meta slot d g) other ≡ unpack_meta meta other
unfolding unpack_meta
unpack-pack_ne meta zero zero d g hm hs ho ne hd hg = absurd (ne refl)
unpack-pack_ne meta (suc zero) (suc zero) d g hm hs ho ne hd hg = absurd (ne refl)
unpack-pack_ne meta (suc (suc zero)) (suc (suc zero)) d g hm hs ho ne hd hg = absurd (ne refl)
unpack-pack_ne meta zero (suc zero) d g hm hs ho ne hd hg =
    ground (arith, pack_meta-0 meta d g hm hd hg)
unpack-pack_ne meta zero (suc (suc zero)) d g hm hs ho ne hd hg =
    ground (arith, pack_meta-0 meta d g hm hd hg)
unpack-pack_ne meta (suc zero) zero d g hm hs ho ne hd hg =
    ground (arith, pack_meta-1 meta d g hm hd hg)
unpack-pack_ne meta (suc zero) (suc (suc zero)) d g hm hs ho ne hd hg =
    ground (arith, pack_meta-1 meta d g hm hd hg)
unpack-pack_ne meta (suc (suc zero)) zero d g hm hs ho ne hd hg =
    ground (arith, pack_meta-2 meta d g hm hd hg)
unpack-pack_ne meta (suc (suc zero)) (suc zero) d g hm hs ho ne hd hg =
    ground (arith, pack_meta-2 meta d g hm hd hg)
unpack-pack_ne meta (suc (suc (suc s))) other d g hm hs ho ne hd hg = absurd (omega arith)
unpack-pack_ne meta slot (suc (suc (suc o))) d g hm hs ho ne hd hg = absurd (omega arith)
