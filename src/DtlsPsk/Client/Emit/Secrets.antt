-- ===== src/DtlsPsk/Client/Emit/Secrets.antt =====
-- The loop of `_prf` ends by its condition, with as many bytes as it was asked for.
use smart_things_local.Prelude.{
  ℕ, zero, suc, ◌+◌, ◌≤◌, ◌≡◌, [], ◌++◌, arith, length, length-append, length-take,
}
use smart_things_local.Prelude.Bytes.{Bytes}
use smart_things_local.DtlsPsk.Client.Emit.{prf_rounds, prf}

module _ (hmac : Bytes → Bytes → Bytes) (hmac_some : (k m : Bytes) → 1 ≤ length (hmac k m)) where
  length-prf_rounds :
      (fuel : ℕ) (secret seed a out : Bytes) (size : ℕ)
      → size ≤ length out + fuel
      → size ≤ length (prf_rounds hmac fuel secret seed a out size)
  unfolding prf_rounds
  length-prf_rounds zero secret seed a out size h = omega arith
  length-prf_rounds (suc fuel) secret seed a out size h =
      let digest = hmac secret (a ++ seed) in
      let more =
        length-prf_rounds fuel secret seed (hmac secret a) (out ++ digest) size
          (omega (arith, length-append out digest, hmac_some secret (a ++ seed))) in
      ground arith

  -- With digests that are not empty, as many bytes are derived as are asked for.
  length-prf :
      (secret label seed : Bytes) (size : ℕ) → length (prf hmac secret label seed size) ≡ size
  unfolding prf
  length-prf secret label seed size =
      let rounds =
        prf_rounds hmac size secret (label ++ seed) (hmac secret (label ++ seed)) [] size in
      omega (
        arith,
        length-take size rounds,
        length-prf_rounds size secret (label ++ seed) (hmac secret (label ++ seed)) [] size
            (omega arith),
      )
