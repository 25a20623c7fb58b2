-- ===== src/Protocol/Copy.antt =====
-- The byte loops: a copy puts a stretch of the source in the place of a stretch of the destination,
-- and a checksum reads no further than its length.
use stm32_vibe.Base.{
  ℕ, zero, suc, ◌+◌, ◌≤◌, ◌≡◌, refl, ◌∙◌, List, [], ◌∷◌, ◌++◌, get_or, set, take, drop, length,
  length-set, set-length_append, length-snoc, snoc-append, drop-cons, arith,
}
use stm32_vibe.Crc.{crc32_update, crc32_loop, update_protocol_crc32}
use stm32_vibe.Protocol.{copy_bytes}

pub copy_bytes_lem :
    (n : ℕ) (before middle after src : List ℕ) (from : ℕ)
    → length middle ≡ n
    → from + n ≤ length src
    → copy_bytes n (before ++ (middle ++ after)) (length before) src from
      ≡ before ++ (take n (drop from src) ++ after)
unfolding copy_bytes
copy_bytes_lem zero before [] after src from e h = refl
copy_bytes_lem zero before (m ∷ middle) after src from e h = absurd (omega arith)
copy_bytes_lem (suc n) before [] after src from e h = absurd (omega arith)
copy_bytes_lem (suc n) before (m ∷ middle) after src from e h =
    rw
      (
        set-length_append before m (get_or src from 0) (middle ++ after),
        length-snoc before (get_or src from 0),
        drop-cons src from 0 (omega arith),
      )
      (copy_bytes_lem n (before ++ get_or src from 0 ∷ []) middle after src (from + 1) (omega arith)
          (omega arith)
        ∙ snoc-append before (get_or src from 0) (take n (drop (from + 1) src) ++ after))

pub length-copy_bytes :
    (n : ℕ) (dst : List ℕ) (to : ℕ) (src : List ℕ) (from : ℕ)
    → length (copy_bytes n dst to src from) ≡ length dst
unfolding copy_bytes
length-copy_bytes zero dst to src from = refl
length-copy_bytes (suc n) dst to src from =
    length-copy_bytes n (set dst to (get_or src from 0)) (to + 1) src (from + 1)
    ∙ length-set dst to _

pub crc32_loop-append :
    (crc : ℕ) (xs ys : List ℕ) (n : ℕ)
    → length xs ≡ n
    → crc32_loop crc (xs ++ ys) n ≡ crc32_loop crc xs n
unfolding crc32_loop
crc32_loop-append crc [] [] zero e = refl
crc32_loop-append crc [] (y ∷ ys) zero e = refl
crc32_loop-append crc [] ys (suc n) e = absurd (omega arith)
crc32_loop-append crc (x ∷ xs) ys zero e = absurd (omega arith)
crc32_loop-append crc (x ∷ xs) ys (suc n) e =
    crc32_loop-append (crc32_update crc x) xs ys n (omega arith)

pub update_protocol_crc32-append :
    (xs ys : List ℕ) (n : ℕ)
    → length xs ≡ n
    → update_protocol_crc32 (xs ++ ys) n ≡ update_protocol_crc32 xs n
unfolding update_protocol_crc32
update_protocol_crc32-append xs ys n e = rw (crc32_loop-append 4294967295 xs ys n e)
