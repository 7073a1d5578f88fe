-- ===== src/Frame/Bodies.antt =====
-- The bodies of the frames of backend/wealdrelay/src/frame.rs, read back one by one.
use wealdrelay.Base.{ℕ, arith, List, [], ◌∷◌, length, map, All, IsU64}
use wealdrelay.Cbor.Encode
use wealdrelay.Cbor.Compose.{
  Back, Back-pure, Back-convert, Back-bind, Back-map, Back-uint, Back-bytes, Back-bytes_of,
  Back-array, length-uint-pos, length-bytes-pos,
}
use wealdrelay.Frame.Tag.{cbor}
use wealdrelay.Frame.Body.{Frame}
use wealdrelay.Frame.Decode.{
  read_groups, read_packages, read_single, read_group_number, read_group_message,
}
use wealdrelay.Frame.Fits.{IsText, IsKey}

pub read_single-Back :
    (make : List ℕ → Frame) (body : List ℕ)
    → IsText body
    → Back (read_single make) (make body) (Encode.array (Encode.bytes body ∷ []))
unfolding read_single Encode.concat
read_single-Back make body h =
    Back-array cbor (Encode.bytes body ∷ []) (omega arith) (omega (arith, length-bytes-pos body))
      (Back-bind _ (Back-convert cbor (Back-bytes body h)) (Back-pure (make body)))

pub read_group_number-Back :
    (make : List ℕ → ℕ → Frame) (group : List ℕ) (n : ℕ)
    → IsKey group
    → IsU64 n
    → Back
        (read_group_number make)
        (make group n)
        (Encode.array (Encode.bytes group ∷ Encode.uint n ∷ []))
unfolding read_group_number Encode.concat
read_group_number-Back make group n hg hn =
    Back-array cbor (Encode.bytes group ∷ Encode.uint n ∷ []) (omega arith)
      (omega (arith, length-bytes-pos group, length-uint-pos n))
      (Back-bind _ (Back-convert cbor (Back-bytes_of 32 group (omega arith) hg))
        (Back-bind _ (Back-convert cbor (Back-uint n hn)) (Back-pure (make group n))))

pub read_group_message-Back :
    (make : List ℕ → ℕ → List ℕ → Frame) (group : List ℕ) (n : ℕ) (message : List ℕ)
    → IsKey group
    → IsU64 n
    → IsText message
    → Back
        (read_group_message make)
        (make group n message)
        (Encode.array (Encode.bytes group ∷ Encode.uint n ∷ Encode.bytes message ∷ []))
unfolding read_group_message Encode.concat
read_group_message-Back make group n message hg hn hm =
    Back-array cbor (Encode.bytes group ∷ Encode.uint n ∷ Encode.bytes message ∷ []) (omega arith)
      (omega (arith, length-bytes-pos group, length-uint-pos n, length-bytes-pos message))
      (Back-bind _ (Back-convert cbor (Back-bytes_of 32 group (omega arith) hg)) (
        Back-bind _ (Back-convert cbor (Back-uint n hn)) (
          Back-bind _ (Back-convert cbor (Back-bytes message hm))
            (Back-pure (make group n message)))))

pub read_groups-Back :
    (groups : List (List ℕ))
    → All IsKey groups
    → Back (read_groups (length groups)) groups (Encode.concat (map Encode.bytes groups))
unfolding read_groups Encode.concat
read_groups-Back [] h = Back-pure []
read_groups-Back (g ∷ gs) h =
    Back-bind _ (Back-convert cbor (Back-bytes_of 32 g (omega arith) h.0))
      (Back-map (λ rest. g ∷ rest) (read_groups-Back gs h.1))

pub read_packages-Back :
    (packages : List (List ℕ))
    → All IsText packages
    → Back (read_packages (length packages)) packages (Encode.concat (map Encode.bytes packages))
unfolding read_packages Encode.concat
read_packages-Back [] h = Back-pure []
read_packages-Back (p ∷ ps) h =
    Back-bind _ (Back-convert cbor (Back-bytes p h.0))
      (Back-map (λ rest. p ∷ rest) (read_packages-Back ps h.1))
