-- ===== src/Tunnel/Copying.antt =====
-- What `writeAll` delivers.
use ssc.Base.{
  ℕ, zero, suc, ◌≤◌, ◌≡◌, ◌≢◌, refl, ap, ◌⊎◌, inl, inr, false, [], ◌∷◌, ◌++◌, append_assoc, Bytes,
  length, take, drop, take-append-drop, length-drop, Bool-cases, arith, ◌==◌, ◌∙◌,
}
use ssc.Tunnel.{WriteResult, WriteEnd, all_written, short_write, write_all}

-- What `io.Writer` promises: a call takes no more bytes than it is given, and fails if it takes
-- fewer.
pub record IsWriter (conn : Bytes → WriteResult) : Type 0 where
  pub within : (b : Bytes) → (conn b).count ≤ length b
  pub fails_short : (b : Bytes) → (conn b).failed ≡ false → (conn b).count ≡ length b

-- The bytes that were delivered are the text itself if the end is `all_written`, and otherwise a
-- part of it that the rest follows.
abbrev pub Delivered : Bytes → Bytes × WriteEnd → Type 0
Delivered b (sent, end) = ((rest : Bytes) × (sent ++ rest ≡ b)) × ((end ≢ all_written) ⊎ (sent ≡ b))

extend :
    (n : ℕ) (b : Bytes) (r : Bytes × WriteEnd)
    → Delivered (drop n b) r
    → Delivered b (take n b ++ r.0, r.1)
extend n b r ((rest, e), inl part) = (
  (rest, append_assoc (take n b) r.0 rest ∙ ap (λ t. take n b ++ t) e ∙ take-append-drop n b),
  inl part,
)
extend n b r ((rest, e), inr whole) = (
  (rest, append_assoc (take n b) r.0 rest ∙ ap (λ t. take n b ++ t) e ∙ take-append-drop n b),
  inr (ap (λ t. take n b ++ t) whole ∙ take-append-drop n b),
)

left :
    (n fuel : ℕ) (c : ℕ) (b : Bytes)
    → (n == 0) ≡ false
    → suc (length b) ≤ suc fuel
    → length (drop n (c ∷ b)) ≤ fuel
left n fuel c b h k = ground (arith, length-drop n (c ∷ b))

pub write_all-Delivered :
    (fuel : ℕ) (conn : Bytes → WriteResult) (b : Bytes)
    → length b ≤ fuel
    → Delivered b (write_all fuel conn b)
unfolding write_all
write_all-Delivered zero conn [] h = (([], refl), inr refl)
write_all-Delivered (suc fuel) conn [] h = (([], refl), inr refl)
write_all-Delivered zero conn (c ∷ b) h = absurd (omega arith)
write_all-Delivered (suc fuel) conn (c ∷ b) h = elim (Bool-cases (conn (c ∷ b)).failed) [
  | inl fails ↦
      rw fails (
        (drop (conn (c ∷ b)).count (c ∷ b), take-append-drop (conn (c ∷ b)).count (c ∷ b)),
        inl (cc),
      )
  | inr fine ↦ rw fine (elim (Bool-cases ((conn (c ∷ b)).count == 0)) [
    | inl none_taken ↦ rw none_taken ((c ∷ b, refl), inl (cc))
    | inr some_taken ↦ rw some_taken (
        extend (conn (c ∷ b)).count (c ∷ b) _ (
          write_all-Delivered fuel conn (drop (conn (c ∷ b)).count (c ∷ b))
            (left (conn (c ∷ b)).count fuel c b some_taken h)))
  ])
]

-- a connection that keeps the promise of `io.Writer` never makes `writeAll` report a short write
write_all-ne-short_write :
    (fuel : ℕ) (conn : Bytes → WriteResult) (b : Bytes)
    → IsWriter conn
    → length b ≤ fuel
    → (write_all fuel conn b).1 ≢ short_write
unfolding write_all
write_all-ne-short_write zero conn [] w h = cc
write_all-ne-short_write (suc fuel) conn [] w h = cc
write_all-ne-short_write zero conn (c ∷ b) w h = absurd (omega arith)
write_all-ne-short_write (suc fuel) conn (c ∷ b) w h = elim (Bool-cases (conn (c ∷ b)).failed) [
  | inl fails ↦ rw fails (cc)
  | inr fine ↦ rw fine (elim (Bool-cases ((conn (c ∷ b)).count == 0)) [
    | inl none_taken ↦ absurd (ground (arith, w.fails_short (c ∷ b) fine))
    | inr some_taken ↦ rw some_taken (
        write_all-ne-short_write fuel conn (drop (conn (c ∷ b)).count (c ∷ b)) w
          (left (conn (c ∷ b)).count fuel c b some_taken h))
  ])
]

-- With fuel for the bytes, `writeAll` over a connection that keeps the promise of `io.Writer`
-- delivers the bytes in order: all of them if it reports no error, and otherwise a part from the
-- beginning. It never gives up with a short write.
pub write_all_delivers :
    (conn : Bytes → WriteResult) (b : Bytes)
    → IsWriter conn
    → ((rest : Bytes) × ((write_all (length b) conn b).0 ++ rest ≡ b))
      × (((write_all (length b) conn b).1 ≢ all_written) ⊎ ((write_all (length b) conn b).0 ≡ b))
      × ((write_all (length b) conn b).1 ≢ short_write)
write_all_delivers conn b w =
    let (part, whole) = write_all-Delivered (length b) conn b (omega arith) in
    (part, whole, write_all-ne-short_write (length b) conn b w (omega arith))
