-- ===== src/Stix/Ids/Bits.antt =====
-- The bits of a UUID of version 4 in the identifiers of analysis/gen_stix_bundle.py.
use mathlib.Core.Path.{subst}
use ssh_honeypot.Base.{
  ℕ, zero, suc, ◌/◌, ◌%◌, ◌<◌, ◌≡◌, refl, Bool, true, ◌&&◌, List, [], ◌∷◌, ◌++◌, arith, all, ◌⊎◌,
  inl, inr, sym, ◌==◌, ==_iff, nat_eq,
}
use ssh_honeypot.Stix.Ids.{set_at, version_byte, variant_byte, force_v4}

-- The numbers below a bound, downwards, and a test that all of them pass.
under : ℕ → List ℕ
under zero = []
under (suc n) = n ∷ under n

both_true : (a b : Bool) → (a && b) ≡ true → (a ≡ true) × (b ≡ true)
both_true a b h = ground arith

lt_or_eq : (b n : ℕ) → b < suc n → (b < n) ⊎ (b ≡ n)
lt_or_eq b n h = omega arith

all-under :
    (test : ℕ → Bool) (bound : ℕ)
    → all test (under bound) ≡ true
    → (b : ℕ) → b < bound
    → test b ≡ true
unfolding under
all-under test zero passed b small = absurd (omega arith)
all-under test (suc n) passed b small =
    let (here, rest) = both_true (test n) (all test (under n)) passed in
    elim (lt_or_eq b n small) [
      | inl less ↦ all-under test n rest b less
      | inr same ↦ subst (λ t. test t ≡ true) (sym same) here
    ]

version_test : ℕ → Bool
version_test b = version_byte b / 16 == 4 && version_byte b % 16 == b % 16

variant_test : ℕ → Bool
variant_test b = variant_byte b / 64 == 2 && variant_byte b % 64 == b % 64

version_table : all version_test (under 256) ≡ true
unfolding under version_test version_byte nat_eq
version_table = refl

variant_table : all variant_test (under 256) ≡ true
unfolding under variant_test variant_byte nat_eq
variant_table = refl

version_bits : (b : ℕ) → b < 256 → (version_byte b / 16 ≡ 4) × (version_byte b % 16 ≡ b % 16)
unfolding version_test
version_bits b h = ground (
  arith,
  all-under version_test 256 version_table b h,
  ==_iff (version_byte b / 16) 4,
  ==_iff (version_byte b % 16) (b % 16),
)

variant_bits : (b : ℕ) → b < 256 → (variant_byte b / 64 ≡ 2) × (variant_byte b % 64 ≡ b % 64)
unfolding variant_test
variant_bits b h = ground (
  arith,
  all-under variant_test 256 variant_table b h,
  ==_iff (variant_byte b / 64) 2,
  ==_iff (variant_byte b % 64) (b % 64),
)

-- The bytes with those at 6 and 8 replaced by one of version 4 and one of the RFC's variant, whose
-- other bits are kept.
pub record IsV4 (before : List ℕ) (b6 b7 b8 : ℕ) (after out : List ℕ) : Type 0 where
  pub byte6 : ℕ
  pub byte8 : ℕ
  pub places : out ≡ before ++ (byte6 ∷ b7 ∷ byte8 ∷ after)
  pub version : byte6 / 16 ≡ 4
  pub variant : byte8 / 64 ≡ 2
  pub kept6 : byte6 % 16 ≡ b6 % 16
  pub kept8 : byte8 % 64 ≡ b8 % 64

-- For the bytes of a UUID, the identifier is made of a UUID with the version 4 and the variant of the
-- RFC, and no bit but those of version and variant is changed.
pub force_v4-IsV4 :
    (a b c d e f b6 b7 b8 : ℕ) (after : List ℕ)
    → b6 < 256
    → b8 < 256
    → IsV4
        (a ∷ b ∷ c ∷ d ∷ e ∷ f ∷ [])
        b6
        b7
        b8
        after
        (force_v4 (a ∷ b ∷ c ∷ d ∷ e ∷ f ∷ b6 ∷ b7 ∷ b8 ∷ after))
unfolding force_v4 set_at
force_v4-IsV4 a b c d e f b6 b7 b8 after h6 h8 =
    let (version, kept6) = version_bits b6 h6 in
    let (variant, kept8) = variant_bits b8 h8 in
    record {
      byte6 = version_byte b6;
      byte8 = variant_byte b8;
      places = refl;
      version = version;
      variant = variant;
      kept6 = kept6;
      kept8 = kept8;
    }
