-- ===== src/Sync/Choice.antt =====
-- What `choose_codec` of src/sync.cpp promises, against include/adbcpp/sync.hpp.
use adbcpp.Base.{
  ℕ, String, ap, ◌∙◌, ◌≤◌, arith, ◌≡◌, refl, Bool, true, false, Option, none, some, ◌⊎◌, inl, inr,
  Bool-cases,
}
use adbcpp.Outcome.{Result, ok, err, error, invalid_argument}
use adbcpp.Connection.{Connection, Build}
use adbcpp.Sync.Codec.{SyncCompression, CompressionCodec, has_codec, best_codec, choose_codec}

-- The codecs in the order of preference.
abbrev pub rank : CompressionCodec → ℕ
rank CompressionCodec.zstd = 0
rank CompressionCodec.lz4 = 1
rank CompressionCodec.brotli = 2

-- The best of the codecs that a test admits: admitted, and before every other that is.
pub record IsBest (has : CompressionCodec → Bool) (codec : CompressionCodec) : Type 0 where
  pub admitted : has codec ≡ true
  pub first : (other : CompressionCodec) → has other ≡ true → rank codec ≤ rank other

-- What a choice may be: a codec that is the best, or none where there is none.
abbrev pub IsBestOf : (CompressionCodec → Bool) → Option CompressionCodec → Type 0
IsBestOf has none = (codec : CompressionCodec) → has codec ≡ false
IsBestOf has (some codec) = IsBest has codec

ok_injective : {x y : Option CompressionCodec} → ok x ≡ ok y → x ≡ y
ok_injective e = cc

module _ (has : CompressionCodec → Bool) where
  none_refuted : {b : Bool} {n : Type 0} → b ≡ false → b ≡ true → n
  none_refuted f t = absurd (cc)

  is_best :
      (z l b : Bool)
      → has CompressionCodec.zstd ≡ z
      → has CompressionCodec.lz4 ≡ l
      → has CompressionCodec.brotli ≡ b
      → IsBestOf has (best_codec z l b)
  is_best true l b hz hl hb = record { admitted = hz; first = λ other h. omega arith }
  is_best false true b hz hl hb = record { admitted = hl; first = after_zstd }
    where
      after_zstd : (other : CompressionCodec) → has other ≡ true → 1 ≤ rank other
      after_zstd CompressionCodec.zstd h = none_refuted hz h
      after_zstd CompressionCodec.lz4 h = omega arith
      after_zstd CompressionCodec.brotli h = omega arith
  is_best false false true hz hl hb = record { admitted = hb; first = after_lz4 }
    where
      after_lz4 : (other : CompressionCodec) → has other ≡ true → 2 ≤ rank other
      after_lz4 CompressionCodec.zstd h = none_refuted hz h
      after_lz4 CompressionCodec.lz4 h = none_refuted hl h
      after_lz4 CompressionCodec.brotli h = omega arith
  is_best false false false hz hl hb = none_left
    where
      none_left : (codec : CompressionCodec) → has codec ≡ false
      none_left CompressionCodec.zstd = hz
      none_left CompressionCodec.lz4 = hl
      none_left CompressionCodec.brotli = hb

-- The request for a codec by name, and the error where it is not to be had.
abbrev pub request : CompressionCodec → SyncCompression
request CompressionCodec.zstd = SyncCompression.zstd
request CompressionCodec.lz4 = SyncCompression.lz4
request CompressionCodec.brotli = SyncCompression.brotli

abbrev pub unavailable : CompressionCodec → String
unavailable CompressionCodec.zstd = "zstd compression is not available for this device or build"
unavailable CompressionCodec.lz4 = "lz4 compression is not available for this device or build"
unavailable CompressionCodec.brotli = "brotli compression is not available for this device or build"

module _ (b : Build) (c : Connection) where
  abbrev pub chosen : Option CompressionCodec
  chosen =
      best_codec (has_codec b c CompressionCodec.zstd) (has_codec b c CompressionCodec.lz4)
        (has_codec b c CompressionCodec.brotli)

  chosen-IsBestOf : IsBestOf (has_codec b c) chosen
  chosen-IsBestOf = is_best (has_codec b c) _ _ _ refl refl refl

  refused :
      (codec : CompressionCodec)
      → has_codec b c codec ≡ false
      → choose_codec b c (request codec) ≡ err (error invalid_argument (unavailable codec))
  unfolding choose_codec
  refused CompressionCodec.zstd h = rw h
  refused CompressionCodec.lz4 h = rw h
  refused CompressionCodec.brotli h = rw h

  granted :
      (codec : CompressionCodec)
      → has_codec b c codec ≡ true
      → choose_codec b c (request codec) ≡ ok chosen
  unfolding choose_codec
  granted CompressionCodec.zstd h = rw h
  granted CompressionCodec.lz4 h = rw h
  granted CompressionCodec.brotli h = rw h

  -- What a choice by name gives: the error where the build or the device has not that codec, and
  -- otherwise the best codec of all.
  abbrev pub Answers : CompressionCodec → Result (Option CompressionCodec) → Type 0
  Answers codec r =
      ((has_codec b c codec ≡ false) × (r ≡ err (error invalid_argument (unavailable codec))))
      ⊎ ((best : CompressionCodec) × ((r ≡ ok (some best)) × IsBest (has_codec b c) best))

  preferred :
      (codec : CompressionCodec) (o : Option CompressionCodec)
      → has_codec b c codec ≡ true
      → IsBestOf (has_codec b c) o
      → (best : CompressionCodec) × ((o ≡ some best) × IsBest (has_codec b c) best)
  preferred codec none h none_left = none_refuted (has_codec b c) (none_left codec) h
  preferred codec (some best) h is = (best, (refl, is))

-- Left to itself, `choose_codec` takes the best codec that the build and the device both have, and
-- none where there is none. A request by name gives an `InvalidArgument` error where the codec of
-- that name is not to be had, and otherwise the best codec of all, whatever the name.
pub choose_codec-Answers :
    (b : Build) (c : Connection) (codec : CompressionCodec)
    → ((o : Option CompressionCodec) × ((choose_codec b c SyncCompression.auto ≡ ok o)
          × IsBestOf (has_codec b c) o))
      × Answers b c codec (choose_codec b c (request codec))
unfolding choose_codec
choose_codec-Answers b c codec = (
  (chosen b c, (refl, chosen-IsBestOf b c)),
  elim (Bool-cases (has_codec b c codec)) [
    | inl h ↦
        let (best, (e, is)) = preferred b c codec (chosen b c) h (chosen-IsBestOf b c) in
        inr (best, (granted b c codec h ∙ ap ok e, is))
    | inr h ↦ inl (h, refused b c codec h)
  ],
)
