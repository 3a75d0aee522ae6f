-- ===== src/CoapTcp/Stream/Prefix.antt =====
-- The size of a frame, from its first bytes: more bytes never change it.
use smart_things_local.Prelude.{
  ℕ, ◌/◌, ◌<◌, ◌≡◌, refl, [], ◌∷◌, ◌++◌, none, some, arith, length, length-append, take-append_le,
}
use smart_things_local.Prelude.Bytes.{Bytes}
use smart_things_local.Errors.{Error, ok, err, codec_error}
use smart_things_local.CoapTcp.Frame.{frame_size_from_prefix, decode_length, extension_size}

-- Once all of the length field is there, it decides.
pub frame_size-append :
    (bs more : Bytes) (maximum : ℕ)
    → ¬ (frame_size_from_prefix bs maximum ≡ ok none)
    → frame_size_from_prefix (bs ++ more) maximum ≡ frame_size_from_prefix bs maximum
unfolding frame_size_from_prefix
frame_size-append [] more maximum h = absurd (h refl)
frame_size-append (b ∷ bs) more maximum h =
    ground (arith, take-append_le (extension_size (b / 16)) bs more, length-append bs more)

-- A frame is longer than the bytes that first announce it.
pub frame_size-snoc :
    (b c : ℕ) (bs : Bytes) (maximum n : ℕ)
    → frame_size_from_prefix (b ∷ bs) maximum ≡ ok none
    → frame_size_from_prefix (b ∷ (bs ++ (c ∷ []))) maximum ≡ ok (some n)
    → length (b ∷ (bs ++ (c ∷ []))) < n
unfolding frame_size_from_prefix
frame_size-snoc b c bs maximum n h k = ground (arith, length-append bs (c ∷ []))

pub frame_size_positive :
    (bs : Bytes) (maximum n : ℕ) → frame_size_from_prefix bs maximum ≡ ok (some n) → 0 < n
unfolding frame_size_from_prefix
frame_size_positive [] maximum n h = ground arith
frame_size_positive (b ∷ bs) maximum n h = ground arith

pub frame_size_failure :
    (bs : Bytes) (maximum : ℕ) (e : Error)
    → frame_size_from_prefix bs maximum ≡ err e
    → e ≡ codec_error
unfolding frame_size_from_prefix decode_length
frame_size_failure [] maximum e h = ground arith
frame_size_failure (b ∷ bs) maximum e h = ground arith
