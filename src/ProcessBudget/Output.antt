-- ===== src/ProcessBudget/Output.antt =====
-- A success returns the whole output, within the limit.
use daxiang_vpn.Prelude.{
  ℕ, ◌+◌, ◌-◌, ◌≤◌, ◌≡◌, refl, sym, ap, ◌∙◌, min, true, false, none, List, [], ◌∷◌, ◌++◌, length,
  if◌then◌else◌, arith,
}
use daxiang_vpn.ProcessBudget.Runner.{
  Spec, Runner, Capture, Piece, Report, new_capture, first, write, write_all, classify, conclude,
}

-- Everything that was written, and what of it to the standard output.
abbrev pub total : List Piece → ℕ
total [] = 0
total (p ∷ ps) = length p.bytes + total ps

abbrev pub stdout_of : List Piece → List ℕ
stdout_of [] = []
stdout_of (p ∷ ps) = if p.is_stdout then p.bytes ++ stdout_of ps else stdout_of ps

first-length : (xs : List ℕ) → first (length xs) xs ≡ xs
first-length [] = refl
first-length (x ∷ xs) = ground (arith, first-length xs)

overflow-write_all :
    (ps : List Piece) (c : Capture) → c.overflow ≡ true → (write_all ps c).overflow ≡ true
unfolding write_all write
overflow-write_all [] c h = h
overflow-write_all (p ∷ ps) c h = overflow-write_all ps (write p c) (ground arith)

append_assoc : (a b c : List ℕ) → (a ++ b) ++ c ≡ a ++ (b ++ c)
append_assoc [] b c = refl
append_assoc (x ∷ a) b c = ap (λ (l : List ℕ). x ∷ l) (append_assoc a b c)

append_nil : (a : List ℕ) → a ++ [] ≡ a
append_nil [] = refl
append_nil (x ∷ a) = ap (λ (l : List ℕ). x ∷ l) (append_nil a)

write-whole :
    (p : Piece) (c : Capture)
    → (write p c).overflow ≡ false
    → c.count ≤ c.limit
    → ((write p c).stdout ≡ c.stdout ++ stdout_of (p ∷ []))
      × ((write p c).count ≡ c.count + length p.bytes)
      × ((write p c).count ≤ c.limit)
unfolding write
write-whole p c h b =
    let n : min (length p.bytes) (c.limit - c.count) ≡ length p.bytes = ground arith in
    let all : first (min (length p.bytes) (c.limit - c.count)) p.bytes ≡ p.bytes =
      ap (λ (k : ℕ). first k p.bytes) n ∙ first-length p.bytes in
    (
      ground (arith, all, append_nil p.bytes, append_nil c.stdout),
      omega (arith, n),
      omega (arith, n),
    )

stdout_of-cons :
    (p : Piece) (ps : List Piece) → stdout_of (p ∷ ps) ≡ stdout_of (p ∷ []) ++ stdout_of ps
stdout_of-cons p ps = ground (arith, append_nil p.bytes)

write_all-whole :
    (ps : List Piece) (c : Capture)
    → (write_all ps c).overflow ≡ false
    → c.count ≤ c.limit
    → ((write_all ps c).stdout ≡ c.stdout ++ stdout_of ps) × (c.count + total ps ≤ c.limit)
unfolding write_all
write_all-whole [] c h b = (sym (append_nil c.stdout), omega arith)
write_all-whole (p ∷ ps) c h b =
    let now : (write p c).overflow ≡ false = grind (arith, overflow-write_all ps (write p c)) in
    let (s, n, l) = write-whole p c now b in
    let keeps : (write p c).limit ≡ c.limit = unfold write in refl in
    let (t, m) = write_all-whole ps (write p c) h (omega (arith, l, keeps)) in
    (
      t
          ∙ ap (λ (x : List ℕ). x ++ stdout_of ps) s
          ∙ append_assoc c.stdout (stdout_of (p ∷ [])) (stdout_of ps)
          ∙ ap (λ (x : List ℕ). c.stdout ++ x) (sym (stdout_of-cons p ps)),
      omega (arith, n, m, keeps),
    )

-- When a run that had a seat ends with no failure, its supervision was confirmed, its seat is free,
-- its result is all that the process wrote to the standard output, and all that the process wrote
-- is within the limit.
pub conclude-whole :
    (s : Spec) (p : Report) (r : Runner)
    → (conclude s p r).1.kind ≡ none
    → (p.verified ≡ true)
      × ((conclude s p r).0.taken ≡ r.taken - 1)
      × ((conclude s p r).1.stdout ≡ stdout_of p.pieces)
      × (total p.pieces ≤ s.output_limit)
unfolding conclude classify
conclude-whole s p r h =
    let c = write_all p.pieces (new_capture s.output_limit) in
    let fits : c.overflow ≡ false = ground arith in
    let (out, size) = write_all-whole p.pieces (new_capture s.output_limit) fits (omega arith) in
    (ground arith, ground arith, ground (arith, out), omega (arith, size))
