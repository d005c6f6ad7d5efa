-- ===== src/Bench/Frames/Chunks.antt =====
-- A response that is cut into chunks between its characters.
use sse_gateway.Prelude.{
  All, true, ℕ, zero, suc, ◌+◌, ◌≤◌, ◌≡◌, refl, sym, ap, ◌∙◌, Text, Option, List, [], ◌∷◌, ◌++◌,
  length, length-append, leb, append_assoc, append-nil, arith, Option-cases, Bool-cases, inl, inr,
  map,
}
use sse_gateway.Std.Utf8.{is_utf8, from_utf8_lossy-is_utf8}
use sse_gateway.Std.Decimal.{ℤ}
use sse_gateway.Bench.Frames.{cut_frame, drain, sent_at, all_sent_at, bytes, receive}
use sse_gateway.Bench.Frames.Drain.{
  with_frame, cut_frame_shorter, cut_frame-append, frames_empty, drain-none, drain-some,
}

-- what a later text adds to the frames and the buffer of an earlier one
abbrev then_drain : List Text × Text → Text → List Text × Text
then_drain (l, left) t = let (l', left') = drain (left ++ t) in (l ++ l', left')

drain_empty : (s : Text) → length s ≤ 0 → drain s ≡ ([], s)
unfolding drain
drain_empty s h = frames_empty (length s) s h

-- The buffer that is left has no frame.
drain_left : (n : ℕ) (s : Text) → length s ≤ n → drain (drain s).1 ≡ ([], (drain s).1)
drain_left zero s h =
    let e = drain_empty s h in
    ap (λ (p : List Text × Text). drain p.1) e
    ∙ e
    ∙ ap (λ (p : List Text × Text). ([], p.1)) (sym e)
drain_left (suc n) s h = elim (Option-cases (cut_frame s)) [
  | inl e ↦
      let d = drain-none s e in
      ap (λ (p : List Text × Text). drain p.1) d
      ∙ d
      ∙ ap (λ (p : List Text × Text). ([], p.1)) (sym d)
  | inr ((frame, after), e) ↦
      let d = drain-some s frame after e in
      ap (λ (p : List Text × Text). drain p.1) d
      ∙ drain_left n after (omega (arith, cut_frame_shorter s frame after e, h))
      ∙ ap (λ (p : List Text × Text). ([], p.1)) (sym d)
]

drain-append : (n : ℕ) (s t : Text) → length s ≤ n → drain (s ++ t) ≡ then_drain (drain s) t
drain-append zero s t h = ap (λ p. then_drain p t) (sym (drain_empty s h))
drain-append (suc n) s t h = elim (Option-cases (cut_frame s)) [
  | inl e ↦ ap (λ p. then_drain p t) (sym (drain-none s e))
  | inr ((frame, after), e) ↦
      drain-some (s ++ t) frame (after ++ t) (cut_frame-append s t frame after e)
      ∙ ap (with_frame frame)
          (drain-append n after t (omega (arith, cut_frame_shorter s frame after e, h)))
      ∙ ap (λ p. then_drain p t) (sym (drain-some s frame after e))
]

abbrev pub response : List Text → Text
response [] = []
response (chunk ∷ chunks) = chunk ++ response chunks

no_more : (l : List ℤ) → length l ≤ 0 → l ≡ []
no_more [] h = refl
no_more (x ∷ l) h = absurd (omega (arith, h))

module _ (send_ts : Text → Option ℤ) where
  all_sent_at-append :
      (l r : List Text)
      → all_sent_at send_ts (l ++ r) ≡ all_sent_at send_ts l ++ all_sent_at send_ts r
  unfolding all_sent_at
  all_sent_at-append [] r = refl
  all_sent_at-append (frame ∷ l) r = elim (Option-cases (sent_at send_ts frame)) [
    | inl e ↦ rw (all_sent_at, e) (all_sent_at-append l r)
    | inr (ts, e) ↦ rw (all_sent_at, e) (ap (λ k. ts ∷ k) (all_sent_at-append l r))
  ]

  -- the times in a text, from an empty buffer
  abbrev pub times_in : Text → List ℤ
  times_in text = all_sent_at send_ts (drain text).0

  times-append :
      (s t : Text)
      → times_in (s ++ t) ≡ all_sent_at send_ts (drain s).0 ++ times_in ((drain s).1 ++ t)
  times-append s t =
      ap (λ (p : List Text × Text). all_sent_at send_ts p.0)
        (drain-append (length s) s t (omega arith))
      ∙ all_sent_at-append (drain s).0 _

  receive_chunks :
      (num_messages : ℕ) (chunks : List Text) (buffer : Text) (received : List ℤ)
      → All (λ chunk. is_utf8 chunk ≡ true) chunks
      → drain buffer ≡ ([], buffer)
      → length received + length (times_in (buffer ++ response chunks)) ≤ num_messages
      → receive send_ts num_messages (map bytes chunks) buffer received
        ≡ (received ++ times_in (buffer ++ response chunks), 0)
  unfolding receive
  receive_chunks num_messages [] buffer received valid clean few =
      ap (λ l. (l, 0))
        (sym (append-nil received)
          ∙ ap (λ l. received ++ l)
              (sym (
                ap times_in (append-nil buffer)
                ∙ ap (λ (p : List Text × Text). all_sent_at send_ts p.0) clean)))
  receive_chunks num_messages (chunk ∷ chunks) buffer received valid clean few =
      rw (receive, from_utf8_lossy-is_utf8 chunk valid.0)
        (let s = buffer ++ chunk in
          let now = all_sent_at send_ts (drain s).0 in
          let later = times_in ((drain s).1 ++ response chunks) in
          let whole : times_in (buffer ++ (chunk ++ response chunks)) ≡ now ++ later =
            ap times_in (sym (append_assoc buffer chunk (response chunks)))
            ∙ times-append s (response chunks) in
          elim (Bool-cases (leb num_messages (length (received ++ now)))) [
            | inl all ↦
                let none_later : later ≡ [] = no_more later (
                  ground (
                    arith,
                    all,
                    few,
                    ap length whole,
                    length-append received now,
                    length-append now later,
                  )) in
                rw all (
                  ap (λ l. (received ++ l, 0))
                    (sym (append-nil now) ∙ ap (λ l. now ++ l) (sym none_later) ∙ sym whole))
            | inr going ↦ rw going (
                receive_chunks num_messages chunks (drain s).1 (received ++ now) valid.1
                  (drain_left (length s) s (omega arith))
                  (omega (
                    arith,
                    few,
                    ap length whole,
                    length-append received now,
                    length-append now later,
                  ))
                ∙ ap (λ l. (l, 0))
                    (append_assoc received now later ∙ ap (λ l. received ++ l) (sym whole)))
          ])

  -- Let a response be cut into chunks of UTF-8 of which none fails, and have at most
  -- `num_messages` times in its events. Then the receiver keeps those times, in order and without
  -- an error, as if the response were one text.
  pub receive_any_chunks :
      (num_messages : ℕ) (chunks : List Text)
      → All (λ chunk. is_utf8 chunk ≡ true) chunks
      → length (times_in (response chunks)) ≤ num_messages
      → receive send_ts num_messages (map bytes chunks) [] [] ≡ (times_in (response chunks), 0)
  receive_any_chunks num_messages chunks valid few =
      receive_chunks num_messages chunks [] [] valid (drain_empty [] (omega arith))
        (omega (arith, few))
