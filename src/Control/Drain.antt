-- ===== src/Control/Drain.antt =====
-- `while b"\r\n" in buffer`: a state that takes complete lines, one after the other, until it has ended.
use computer_network_socket.Base.{
  ℕ, zero, suc, ◌≤◌, ◌<◌, ◌≡◌, refl, sym, ap, ◌∙◌, Bool, true, false, none, some, List, [], ◌∷◌,
  ◌++◌, length, inl, inr, Bool-cases, Option-cases, if◌then◌else◌, arith, length-append,
}
use computer_network_socket.Base.Cases.{if-lem, option-lem}
use computer_network_socket.Control.Lines.{partition_crlf, partition_crlf-append, partition_crlf-eq}

module _ {S : Type 0} (ended : S → Bool) (take_line : S → List ℕ → S) where
  -- The fuel is the number of bytes. A state that has ended keeps no buffer.
  unfoldable pub drain : ℕ → S → List ℕ → S × List ℕ
  drain zero s buffer = (s, buffer)
  drain (suc fuel) s buffer = if ended s then (s, []) else elim (partition_crlf buffer) [
    | none ↦ (s, buffer)
    | some (l, remaining) ↦ drain fuel (take_line s l) remaining
  ]

  -- The bytes left over and new ones, unless the state has ended.
  abbrev pub resume : ℕ → S × List ℕ → List ℕ → S × List ℕ
  resume fuel (s, buffer) bs = if ended s then (s, buffer) else drain fuel s (buffer ++ bs)

  drain_ended :
      (fuel : ℕ) (s : S) → ended s ≡ true → (buffer : List ℕ) → drain (suc fuel) s buffer ≡ (s, [])
  unfolding drain
  drain_ended fuel s e buffer = rw e

  pub drain_step :
      (fuel : ℕ) (s : S) (buffer l remaining : List ℕ)
      → ended s ≡ false
      → partition_crlf buffer ≡ some (l, remaining)
      → drain (suc fuel) s buffer ≡ drain fuel (take_line s l) remaining
  unfolding drain
  drain_step fuel s buffer l remaining e found = rw (e, found)

  pub drain_stop :
      (fuel : ℕ) (s : S) (buffer : List ℕ)
      → ended s ≡ false
      → partition_crlf buffer ≡ none
      → drain (suc fuel) s buffer ≡ (s, buffer)
  unfolding drain
  drain_stop fuel s buffer e no_line = rw (e, no_line)

  shorter :
      (buffer l remaining : List ℕ)
      → partition_crlf buffer ≡ some (l, remaining)
      → length remaining < length buffer
  shorter buffer l remaining found = omega (
    arith,
    ap length (partition_crlf-eq buffer l remaining found),
    length-append l (13 ∷ 10 ∷ remaining),
  )

  pub drain_nil : (fuel : ℕ) (s : S) → drain fuel s [] ≡ (s, [])
  unfolding drain partition_crlf
  drain_nil zero s = refl
  drain_nil (suc fuel) s = if-lem (λ r. r ≡ (s, [])) (ended s) refl refl

  -- More fuel than bytes makes no difference.
  pub drain_fuel :
      (f g : ℕ) (s : S) (buffer : List ℕ)
      → length buffer ≤ f
      → length buffer ≤ g
      → drain f s buffer ≡ drain g s buffer
  unfolding drain
  drain_fuel zero g s [] hf hg = sym (drain_nil g s)
  drain_fuel zero g s (x ∷ buffer) hf hg = absurd (omega arith)
  drain_fuel (suc f) zero s [] hf hg = drain_nil (suc f) s
  drain_fuel (suc f) zero s (x ∷ buffer) hf hg = absurd (omega arith)
  drain_fuel (suc f) (suc g) s buffer hf hg = elim (Bool-cases (ended s)) [
    | inl e ↦ drain_ended f s e buffer ∙ sym (drain_ended g s e buffer)
    | inr e ↦ elim (Option-cases (partition_crlf buffer)) [
      | inl no_line ↦ drain_stop f s buffer e no_line ∙ sym (drain_stop g s buffer e no_line)
      | inr ((l, r), found) ↦
          let fewer = shorter buffer l r found in
          drain_step f s buffer l r e found
          ∙ (drain_fuel f g (take_line s l) r (omega arith) (omega arith)
              ∙ sym (drain_step g s buffer l r e found))
    ]
  ]

  pub drain_over :
      (f : ℕ) (s : S) (buffer : List ℕ)
      → ended s ≡ true
      → length buffer ≤ f
      → drain f s buffer ≡ (s, [])
  drain_over f s [] e h = drain_nil f s
  drain_over zero s (x ∷ buffer) e h = absurd (omega arith)
  drain_over (suc f) s (x ∷ buffer) e h = drain_ended f s e (x ∷ buffer)

  pub resume_running :
      (h : ℕ) (s : S) (a b : List ℕ) → ended s ≡ false → resume h (s, a) b ≡ drain h s (a ++ b)
  resume_running h s a b e = rw e

  pub resume_ended : (h : ℕ) (s : S) (a b : List ℕ) → ended s ≡ true → resume h (s, a) b ≡ (s, a)
  resume_ended h s a b e = rw e

  -- Draining some bytes, and then what is left over with more bytes, is draining all of them.
  pub drain-append :
      (f g h : ℕ) (s : S) (a b : List ℕ)
      → length (a ++ b) ≤ f
      → length a ≤ g
      → length (a ++ b) ≤ h
      → ended s ≡ false
      → drain f s (a ++ b) ≡ resume h (drain g s a) b
  drain-append f g h s [] b hf hg hh e =
      drain_fuel f h s b hf hh
      ∙ (sym (resume_running h s [] b e) ∙ ap (λ r. resume h r b) (sym (drain_nil g s)))
  drain-append zero g h s (x ∷ a) b hf hg hh e = absurd (omega arith)
  drain-append (suc f) zero h s (x ∷ a) b hf hg hh e = absurd (omega arith)
  drain-append (suc f) (suc g) h s (x ∷ a) b hf hg hh e =
      elim (Option-cases (partition_crlf (x ∷ a))) [
        | inl no_line ↦
            drain_fuel (suc f) h s (x ∷ (a ++ b)) hf hh
            ∙ (sym (resume_running h s (x ∷ a) b e)
                ∙ ap (λ r. resume h r b) (sym (drain_stop g s (x ∷ a) e no_line)))
        | inr ((l, r), found) ↦
            let fewer = shorter (x ∷ a) l r found in
            drain_step f s (x ∷ (a ++ b)) l (r ++ b) e (partition_crlf-append (x ∷ a) b l r found)
            ∙ (elim (Bool-cases (ended (take_line s l))) [
              | inl over ↦
                  drain_over f (take_line s l) (r ++ b) over
                    (omega (arith, length-append (x ∷ a) b, length-append r b))
                  ∙ (sym (resume_ended h (take_line s l) [] b over)
                      ∙ ap (λ r'. resume h r' b)
                          (sym (drain_over g (take_line s l) r over (omega arith))))
              | inr on ↦
                  drain-append f g h (take_line s l) r b
                    (omega (arith, length-append (x ∷ a) b, length-append r b)) (omega arith)
                    (omega (arith, length-append (x ∷ a) b, length-append r b)) on
            ]
                ∙ ap (λ r'. resume h r' b) (sym (drain_step g s (x ∷ a) l r e found)))
      ]

  -- What is left over is no longer than the bytes, and holds no whole line.
  pub drain-length : (f : ℕ) (s : S) (a : List ℕ) → length (drain f s a).1 ≤ length a
  unfolding drain
  drain-length zero s a = omega arith
  drain-length (suc f) s a = elim (Bool-cases (ended s)) [
    | inl e ↦ rw e (omega arith)
    | inr e ↦ elim (Option-cases (partition_crlf a)) [
      | inl no_line ↦ rw (e, no_line) (omega arith)
      | inr ((l, r), found) ↦
          rw (e, found) (omega (arith, drain-length f (take_line s l) r, shorter a l r found))
    ]
  ]

  pub drain-partition_crlf :
      (f : ℕ) (s : S) (a : List ℕ) → length a ≤ f → partition_crlf (drain f s a).1 ≡ none
  unfolding drain partition_crlf
  drain-partition_crlf zero s [] h = refl
  drain-partition_crlf zero s (x ∷ a) h = absurd (omega arith)
  drain-partition_crlf (suc f) s a h = elim (Bool-cases (ended s)) [
    | inl e ↦ rw e
    | inr e ↦ elim (Option-cases (partition_crlf a)) [
      | inl no_line ↦ rw (e, no_line) no_line
      | inr ((l, r), found) ↦
          let fewer = shorter a l r found in
          rw (e, found) (drain-partition_crlf f (take_line s l) r (omega arith))
    ]
  ]

  -- What every line keeps, a drain keeps.
  pub drain-Invariant :
      (P : S → Type 0)
      → ((s : S) (l : List ℕ) → P s → P (take_line s l))
      → (n : ℕ) (s : S) (buffer : List ℕ) → P s
      → P (drain n s buffer).0
  unfolding drain
  drain-Invariant P keeps zero s buffer h = h
  drain-Invariant P keeps (suc n) s buffer h =
      if-lem {A = S × List ℕ} (λ r. P r.0) (ended s) h
        (option-lem {B = S × List ℕ} (λ r. P r.0) (partition_crlf buffer) h
          (λ (l, remaining). drain-Invariant P keeps n (take_line s l) remaining (keeps s l h)))
