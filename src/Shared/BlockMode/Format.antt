-- ===== src/Shared/BlockMode/Format.antt =====
-- The format of MODE B as an inductive relation, and that `decode_blocks` decides it.
use computer_network_socket.Base.{
  ℕ, zero, suc, ◌+◌, ◌*◌, ◌≤◌, ◌≡◌, ◌≢◌, ◌↔◌, ◌⊎◌, inl, inr, refl, ap, ◌∙◌, arith, List, [], ◌∷◌,
  ◌++◌, append-nil, append_assoc, length, length-append, length-drop, take, drop, length-take,
  take_exact, drop_exact, take_all, drop_all, take-append-drop, bit_and, Bool-cases, ◌==◌,
}
use computer_network_socket.Shared.BlockMode.{
  BlockModeError, Decoded, after_eof, ok, err, stuck, decode_loop, decode_blocks,
  block_descriptor_eof, unsupported_bits,
}

-- `Framed fs bs`: the bytes `fs` are blocks that carry `bs`, and the last one alone has the EOF bit.
pub data Framed : List ℕ → List ℕ → Type 0 where
  last :
      (d h l : ℕ) (chunk : List ℕ)
      → bit_and d unsupported_bits ≡ 0
      → bit_and d block_descriptor_eof ≢ 0
      → length chunk ≡ h * 256 + l
      → Framed (d ∷ h ∷ l ∷ chunk) chunk
  block :
      (d h l : ℕ) (chunk : List ℕ) {fs bs : List ℕ}
      → bit_and d unsupported_bits ≡ 0
      → bit_and d block_descriptor_eof ≡ 0
      → length chunk ≡ h * 256 + l
      → Framed fs bs
      → Framed (d ∷ h ∷ l ∷ (chunk ++ fs)) (chunk ++ bs)

-- Enough fuel: every round takes three bytes of header.
decode_loop-ne-stuck :
    (fuel : ℕ) (rest decoded : List ℕ) → length rest ≤ fuel → decode_loop fuel rest decoded ≢ stuck
unfolding decode_loop
decode_loop-ne-stuck fuel [] decoded h = ground arith
decode_loop-ne-stuck fuel (d ∷ []) decoded h = ground arith
decode_loop-ne-stuck fuel (d ∷ x ∷ []) decoded h = ground arith
decode_loop-ne-stuck zero (d ∷ x ∷ l ∷ rest) decoded h = absurd (omega arith)
decode_loop-ne-stuck (suc fuel) (d ∷ x ∷ l ∷ rest) decoded h = ground (
  arith,
  length-drop (x * 256 + l) rest,
  decode_loop-ne-stuck fuel (drop (x * 256 + l) rest) (decoded ++ take (x * 256 + l) rest),
)

-- The fuel of `decode_blocks`, the number of bytes, is enough on every input.
pub decode_blocks-ne-stuck : (fs : List ℕ) → decode_blocks fs ≢ stuck
unfolding decode_blocks
decode_blocks-ne-stuck fs = decode_loop-ne-stuck (length fs) fs [] (omega arith)

decode_loop_block :
    (fuel d h l : ℕ) (chunk fs decoded : List ℕ)
    → bit_and d unsupported_bits ≡ 0
    → bit_and d block_descriptor_eof ≡ 0
    → length chunk ≡ h * 256 + l
    → decode_loop (suc fuel) (d ∷ h ∷ l ∷ (chunk ++ fs)) decoded
      ≡ decode_loop fuel fs (decoded ++ chunk)
unfolding decode_loop
decode_loop_block fuel d h l chunk fs decoded hu he hn = ground (
  arith,
  take_exact (h * 256 + l) chunk fs hn,
  drop_exact (h * 256 + l) chunk fs hn,
  length-append chunk fs,
)

decode_loop_last :
    (fuel d h l : ℕ) (chunk decoded : List ℕ)
    → bit_and d unsupported_bits ≡ 0
    → bit_and d block_descriptor_eof ≢ 0
    → length chunk ≡ h * 256 + l
    → decode_loop (suc fuel) (d ∷ h ∷ l ∷ chunk) decoded ≡ ok (decoded ++ chunk)
unfolding decode_loop
decode_loop_last fuel d h l chunk decoded hu he hn =
    ground (
      arith,
      take_all (h * 256 + l) chunk (omega arith),
      drop_all (h * 256 + l) chunk (omega arith),
    )

pub decode_loop-Framed :
    {fs bs : List ℕ} (fuel : ℕ) (decoded : List ℕ)
    → Framed fs bs
    → length fs ≤ fuel
    → decode_loop fuel fs decoded ≡ ok (decoded ++ bs)
decode_loop-Framed zero decoded (last d h l chunk hu he hn) le = absurd (omega arith)
decode_loop-Framed zero decoded (block d h l chunk hu he hn fr) le = absurd (omega arith)
decode_loop-Framed (suc fuel) decoded (last d h l chunk hu he hn) le =
    decode_loop_last fuel d h l chunk decoded hu he hn
decode_loop-Framed (suc fuel) decoded (block d h l chunk {fs} {bs} hu he hn fr) le =
    decode_loop_block fuel d h l chunk fs decoded hu he hn
    ∙ decode_loop-Framed fuel (decoded ++ chunk) fr (omega (arith, length-append chunk fs))
    ∙ ap ok (append_assoc decoded chunk bs)

-- What a successful run of the loop has read.
abbrev Reads : List ℕ → List ℕ → List ℕ → Type 0
Reads rest decoded out = (bs : List ℕ) × Framed rest bs × (out ≡ decoded ++ bs)

Reads-block :
    (d h l : ℕ) (rest decoded : List ℕ) {out : List ℕ}
    → bit_and d unsupported_bits ≡ 0
    → bit_and d block_descriptor_eof ≡ 0
    → h * 256 + l ≤ length rest
    → Reads (drop (h * 256 + l) rest) (decoded ++ take (h * 256 + l) rest) out
    → Reads (d ∷ h ∷ l ∷ rest) decoded out
Reads-block d h l rest decoded hu he le (bs, fr, eq) =
    let n = h * 256 + l in
    let chunk = take n rest in
    (
      chunk ++ bs,
      rw (take-append-drop n rest) at
          (block d h l chunk hu he (omega (arith, length-take n rest)) fr),
      eq ∙ append_assoc decoded chunk bs,
    )

Reads-last :
    (d h l : ℕ) (rest decoded : List ℕ) {out : List ℕ}
    → bit_and d unsupported_bits ≡ 0
    → bit_and d block_descriptor_eof ≢ 0
    → h * 256 + l ≤ length rest
    → drop (h * 256 + l) rest ≡ []
    → out ≡ decoded ++ take (h * 256 + l) rest
    → Reads (d ∷ h ∷ l ∷ rest) decoded out
Reads-last d h l rest decoded hu he le dr eq =
    let n = h * 256 + l in
    let full : take n rest ≡ rest = rw (dr, append-nil) at (take-append-drop n rest) in
    (rest, last d h l rest hu he (omega (arith, ap length full, length-take n rest)), rw full at eq)

decode_loop_sound :
    (fuel : ℕ) (rest decoded out : List ℕ)
    → decode_loop fuel rest decoded ≡ ok out
    → Reads rest decoded out
unfolding decode_loop
decode_loop_sound fuel [] decoded out e = absurd (ground arith)
decode_loop_sound fuel (d ∷ []) decoded out e = absurd (ground arith)
decode_loop_sound fuel (d ∷ h ∷ []) decoded out e = absurd (ground arith)
decode_loop_sound zero (d ∷ h ∷ l ∷ rest) decoded out e = absurd (ground arith)
decode_loop_sound (suc fuel) (d ∷ h ∷ l ∷ rest) decoded out e =
    elim (Bool-cases (bit_and d block_descriptor_eof == 0)) [
      | inl more ↦
          Reads-block d h l rest decoded (ground arith) (ground arith) (ground arith)
            (decode_loop_sound fuel _ _ out (ground arith))
      | inr eof ↦
          Reads-last d h l rest decoded (ground arith) (ground arith) (ground arith) (ground arith)
            (ground arith)
    ]

-- `decode_blocks` accepts exactly the bytes in the format, and returns what they carry.
pub decode_blocks_iff : (fs bs : List ℕ) → (decode_blocks fs ≡ ok bs) ↔ Framed fs bs
unfolding decode_blocks
decode_blocks_iff fs bs = (
  λ e. let (bs', fr, eq) = decode_loop_sound (length fs) fs [] bs e in rw eq fr,
  λ fr. decode_loop-Framed (length fs) [] fr (omega arith),
)

after_block :
    (fuel d h l : ℕ) (chunk fs more decoded : List ℕ) (x : ℕ)
    → bit_and d unsupported_bits ≡ 0
    → bit_and d block_descriptor_eof ≡ 0
    → length chunk ≡ h * 256 + l
    → decode_loop (suc fuel) ((d ∷ h ∷ l ∷ (chunk ++ fs)) ++ (x ∷ more)) decoded
      ≡ decode_loop fuel (fs ++ (x ∷ more)) (decoded ++ chunk)
after_block fuel d h l chunk fs more decoded x hu he hn =
    rw (append_assoc chunk fs (x ∷ more))
      (decode_loop_block fuel d h l chunk (fs ++ (x ∷ more)) decoded hu he hn)

after_last :
    (fuel d h l : ℕ) (chunk more decoded : List ℕ) (x : ℕ)
    → bit_and d unsupported_bits ≡ 0
    → bit_and d block_descriptor_eof ≢ 0
    → length chunk ≡ h * 256 + l
    → decode_loop (suc fuel) ((d ∷ h ∷ l ∷ chunk) ++ (x ∷ more)) decoded ≡ err after_eof
unfolding decode_loop
after_last fuel d h l chunk more decoded x hu he hn =
    ground (arith, drop_exact (h * 256 + l) chunk (x ∷ more) hn, length-append chunk (x ∷ more))

decode_loop-extended :
    {fs bs : List ℕ} (fuel : ℕ) (decoded more : List ℕ) (x : ℕ)
    → Framed fs bs
    → length fs ≤ fuel
    → decode_loop fuel (fs ++ (x ∷ more)) decoded ≡ err after_eof
decode_loop-extended zero decoded more x (last d h l chunk hu he hn) le = absurd (omega arith)
decode_loop-extended zero decoded more x (block d h l chunk hu he hn fr) le = absurd (omega arith)
decode_loop-extended (suc fuel) decoded more x (last d h l chunk hu he hn) le =
    after_last fuel d h l chunk more decoded x hu he hn
decode_loop-extended (suc fuel) decoded more x (block d h l chunk {fs} hu he hn fr) le =
    after_block fuel d h l chunk fs more decoded x hu he hn
    ∙ decode_loop-extended fuel (decoded ++ chunk) more x fr (omega (arith, length-append chunk fs))

-- Accepted bytes with at least one more byte after them are refused as data after EOF.
pub decode_blocks_extended :
    (fs bs more : List ℕ) (x : ℕ)
    → decode_blocks fs ≡ ok bs
    → decode_blocks (fs ++ (x ∷ more)) ≡ err after_eof
unfolding decode_blocks
decode_blocks_extended fs bs more x e =
    decode_loop-extended (length (fs ++ (x ∷ more))) [] more x ((decode_blocks_iff fs bs).0 e)
      (omega (arith, length-append fs (x ∷ more)))

Decoded-cases :
    (r : Decoded) → r ≢ stuck → ((bs : List ℕ) × (r ≡ ok bs)) ⊎ ((e : BlockModeError) × (r ≡ err e))
Decoded-cases (ok bs) h = inl (bs, refl)
Decoded-cases (err e) h = inr (e, refl)
Decoded-cases stuck h = absurd (h refl)

-- Accepted bytes that are cut short anywhere are refused.
pub decode_blocks_truncated :
    (front back bs : List ℕ) (x : ℕ)
    → decode_blocks (front ++ (x ∷ back)) ≡ ok bs
    → (e : BlockModeError) × (decode_blocks front ≡ err e)
decode_blocks_truncated front back bs x e =
    elim (Decoded-cases (decode_blocks front) (decode_blocks-ne-stuck front)) [
      | inl (cs, early) ↦ absurd (ground (arith, decode_blocks_extended front cs back x early))
      | inr refused ↦ refused
    ]
