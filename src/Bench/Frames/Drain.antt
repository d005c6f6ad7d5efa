-- ===== src/Bench/Frames/Drain.antt =====
-- One frame at a time: how the frames of a buffer start, and that the rounds are enough.
use sse_gateway.Prelude.{
  ℕ, zero, suc, ◌≤◌, ◌<◌, ◌≡◌, refl, sym, ap, ◌∙◌, Text, none, some, Bool, true, false, List, [],
  ◌∷◌, ◌++◌, length, eqb, arith, Option-cases, Bool-cases, ◌⊎◌, ◌&&◌, inl, inr,
}
use sse_gateway.Bench.Frames.{cut_frame, frames, drain}

abbrev is_break : ℕ → ℕ → Bool
is_break a b = eqb a b'\n' && eqb b b'\n'

same_some : {p q : Text × Text} → some p ≡ some q → p ≡ q
same_some e = cc

no_frame : {p : Text × Text} → none ≡ some p → ⊥
no_frame e = cc

-- The frame ends here, or it goes on behind the first byte.
cut_frame_cases :
    (a b : ℕ) (s frame after : Text)
    → cut_frame (a ∷ b ∷ s) ≡ some (frame, after)
    → ((is_break a b ≡ true) × (after ≡ s) × (frame ≡ []))
      ⊎ ((is_break a b ≡ false)
          × (tail : Text) × (frame ≡ a ∷ tail)
          × (cut_frame (b ∷ s) ≡ some (tail, after)))
unfolding cut_frame
cut_frame_cases a b s frame after e = elim (Bool-cases (is_break a b)) [
  | inl t ↦
      let p : ([], s) ≡ (frame, after) = same_some (rw t at e) in
      inl (t, ap (λ q. q.1) (sym p), ap (λ q. q.0) (sym p))
  | inr f ↦ elim (Option-cases (cut_frame (b ∷ s))) [
    | inl n ↦ absurd (no_frame (rw (f, n) at e))
    | inr (q, n) ↦
        let p : (a ∷ q.0, q.1) ≡ (frame, after) = same_some (rw (f, n) at e) in
        inr (f, q.0, ap (λ u. u.0) (sym p), n ∙ ap (λ u. some (q.0, u)) (ap (λ u. u.1) p))
  ]
]

-- what is behind a frame is shorter
pub cut_frame_shorter :
    (s frame after : Text) → cut_frame s ≡ some (frame, after) → length after < length s
unfolding cut_frame
cut_frame_shorter [] frame after e = cc
cut_frame_shorter (a ∷ []) frame after e = cc
cut_frame_shorter (a ∷ b ∷ s) frame after e = elim (cut_frame_cases a b s frame after e) [
  | inl (t, p, _) ↦ omega (arith, ap length p)
  | inr (f, tail, _, p) ↦ omega (arith, cut_frame_shorter (b ∷ s) tail after p)
]

-- more text behind does not change the first frame
pub cut_frame-append :
    (s t frame after : Text)
    → cut_frame s ≡ some (frame, after)
    → cut_frame (s ++ t) ≡ some (frame, after ++ t)
unfolding cut_frame
cut_frame-append [] t frame after e = cc
cut_frame-append (a ∷ []) t frame after e = cc
cut_frame-append (a ∷ b ∷ s) t frame after e = elim (cut_frame_cases a b s frame after e) [
  | inl (q, p, f) ↦ rw (q, p, f)
  | inr (q, tail, f, p) ↦ rw (q, f, cut_frame-append (b ∷ s) t tail after p)
]

abbrev pub with_frame : Text → List Text × Text → List Text × Text
with_frame frame (l, left) = (frame ∷ l, left)

frames-none : (n : ℕ) (s : Text) → cut_frame s ≡ none → frames n s ≡ ([], s)
unfolding frames
frames-none zero s e = refl
frames-none (suc n) s e = rw (frames, e)

frames-some :
    (n : ℕ) (s frame after : Text)
    → cut_frame s ≡ some (frame, after)
    → frames (suc n) s ≡ with_frame frame (frames n after)
unfolding frames
frames-some n s frame after e = rw (frames, e)

no_bytes : (s frame after : Text) → cut_frame s ≡ some (frame, after) → 0 < length s
no_bytes s frame after e = omega (arith, cut_frame_shorter s frame after e)

-- a text without bytes has no frame
pub frames_empty : (n : ℕ) (s : Text) → length s ≤ 0 → frames n s ≡ ([], s)
frames_empty n s h = elim (Option-cases (cut_frame s)) [
  | inl e ↦ frames-none n s e
  | inr ((frame, after), e) ↦ absurd (omega (arith, no_bytes s frame after e, h))
]

-- more rounds than bytes change nothing
frames_enough : (n m : ℕ) (s : Text) → length s ≤ n → length s ≤ m → frames n s ≡ frames m s
frames_enough zero m s h k = frames_empty zero s h ∙ sym (frames_empty m s h)
frames_enough (suc n) zero s h k = frames_empty (suc n) s k ∙ sym (frames_empty zero s k)
frames_enough (suc n) (suc m) s h k = elim (Option-cases (cut_frame s)) [
  | inl e ↦ frames-none (suc n) s e ∙ sym (frames-none (suc m) s e)
  | inr ((frame, after), e) ↦
      let shorter = cut_frame_shorter s frame after e in
      frames-some n s frame after e
      ∙ ap (with_frame frame)
          (frames_enough n m after (omega (arith, shorter, h)) (omega (arith, shorter, k)))
      ∙ sym (frames-some m s frame after e)
]

pub drain-none : (s : Text) → cut_frame s ≡ none → drain s ≡ ([], s)
unfolding drain
drain-none s e = frames-none (length s) s e

pub drain-some :
    (s frame after : Text)
    → cut_frame s ≡ some (frame, after)
    → drain s ≡ with_frame frame (drain after)
unfolding drain
drain-some s frame after e =
    let shorter = cut_frame_shorter s frame after e in
    frames_enough (length s) (suc (length s)) s (omega arith) (omega arith)
    ∙ frames-some (length s) s frame after e
    ∙ ap (with_frame frame)
        (frames_enough (length s) (length after) after (omega (arith, shorter)) (omega arith))
