-- ===== src/DeviceAuth/Carried.antt =====
-- The external actions as WireGuard is to carry them out, and what runs after the planned ones.
use daxiang_vpn.Prelude.{
  ℕ, ◌≡◌, refl, ◌&&◌, not, ltb, ◌==◌, ==_refl, ==→eq, Bool, true, none, some, List, [], ◌∷◌, ◌++◌,
  keep, if◌then◌else◌, any, is_some, find_row, arith, Bool-cases, inl, inr,
}
use daxiang_vpn.DeviceAuth.State.{Net, Binding}
use daxiang_vpn.DeviceAuth.Access.{find_binding}
use daxiang_vpn.DeviceAuth.Plan.{Entry, Step, remove, grant, find_entry, removals, is_revoked, all}

abbrev drop_entry : ℕ → List Entry → List Entry
drop_entry k es = keep (λ e. not (e.key == k)) es

-- `remove` takes the peer away, `grant` gives it that one prefix.
unfoldable pub carry : Step → List Entry → List Entry
carry (remove key n) es = drop_entry key es
carry (grant key n) es = record { key = key; ips = n ∷ [] } ∷ drop_entry key es

unfoldable pub carry_all : List Step → List Entry → List Entry
unfolding carry
carry_all [] es = es
carry_all (s ∷ ss) es = carry_all ss (carry s es)

pub carry_all-append :
    (ss ts : List Step) (es : List Entry) → carry_all (ss ++ ts) es ≡ carry_all ts (carry_all ss es)
unfolding carry_all
carry_all-append [] ts es = refl
carry_all-append (s ∷ ss) ts es = carry_all-append ss ts (carry s es)

find-drop_entry :
    (j k : ℕ) (es : List Entry)
    → find_entry j (drop_entry k es) ≡ (if j == k then none else find_entry j es)
unfolding find_row
find-drop_entry j k [] = ground arith
find-drop_entry j k (e ∷ es) = ground (arith, find-drop_entry j k es)

pub find-carry-grant :
    (j key : ℕ) (n : Net) (es : List Entry)
    → find_entry j (carry (grant key n) es)
      ≡ (if j == key then some (record { key = key; ips = n ∷ [] }) else find_entry j es)
unfolding carry find_row
find-carry-grant j key n es = ground (arith, find-drop_entry j key es)

-- A revoked binding of that key, with a peer that runs.
abbrev is_removed : List Entry → ℕ → Binding → Bool
is_removed runtime j b =
    j == b.public_key && ltb 0 b.revoked_generation && is_some (find_entry b.public_key runtime)

find-carry_all-removals :
    (j : ℕ) (runtime : List Entry) (bs : List Binding) (es : List Entry)
    → find_entry j (carry_all (removals runtime bs) es)
      ≡ (if any (is_removed runtime j) bs then none else find_entry j es)
unfolding carry_all carry removals
find-carry_all-removals j runtime [] es = refl
find-carry_all-removals j runtime (b ∷ bs) es = ground (
  arith,
  find-carry_all-removals j runtime bs es,
  find-carry_all-removals j runtime bs (drop_entry b.public_key es),
  find-drop_entry j b.public_key es,
)

-- No two rows have one key.
module _ {A : Type 0} (key : A → ℕ) where
  abbrev pub are_distinct : List A → Bool
  are_distinct [] = true
  are_distinct (x ∷ xs) = not (is_some (find_row key (key x) xs)) && are_distinct xs

  pub all-are_distinct :
      (p : A → Bool) (xs : List A)
      → are_distinct xs ≡ true
      → ((x : A) → find_row key (key x) xs ≡ some x → p x ≡ true)
      → all p xs ≡ true
  unfolding find_row
  all-are_distinct p [] h f = refl
  all-are_distinct p (x ∷ xs) h f =
      let rest : all p xs ≡ true =
        all-are_distinct p xs (ground arith) (λ y g. f y (ground (arith, ==→eq (key y) (key x)))) in
      let head = f x (ground (arith, ==_refl (key x))) in ground arith

  pub find-all :
      (p : A → Bool) (k : ℕ) (xs : List A) (x : A)
      → all p xs ≡ true
      → find_row key k xs ≡ some x
      → p x ≡ true
  unfolding find_row
  find-all p k [] x h f = cc
  find-all p k (y ∷ ys) x h f = ground (arith, find-all p k ys x)

any-is_removed :
    (j : ℕ) (runtime : List Entry) (bs : List Binding)
    → are_distinct (λ b. b.public_key) bs ≡ true
    → any (is_removed runtime j) bs ≡ (is_revoked bs j && is_some (find_entry j runtime))
unfolding find_row
any-is_removed j runtime [] h = refl
any-is_removed j runtime (b ∷ bs) h = elim (Bool-cases (j == b.public_key)) [
  | inl same ↦
      let own = ==→eq j b.public_key same in
      let one : find_binding j bs ≡ none = ground (arith, own) in
      ground (arith, any-is_removed j runtime bs, own, one)
  | inr other ↦ ground (arith, any-is_removed j runtime bs)
]

-- What runs once the removals are carried out.
pub find-removals :
    (j : ℕ) (runtime : List Entry) (bs : List Binding)
    → are_distinct (λ b. b.public_key) bs ≡ true
    → find_entry j (carry_all (removals runtime bs) runtime)
      ≡ (if is_revoked bs j then none else find_entry j runtime)
find-removals j runtime bs h =
    ground (arith, find-carry_all-removals j runtime bs runtime, any-is_removed j runtime bs h)

module _ (p : Entry → Bool) where
  all-drop_entry : (k : ℕ) (es : List Entry) → all p es ≡ true → all p (drop_entry k es) ≡ true
  all-drop_entry k [] h = refl
  all-drop_entry k (e ∷ es) h = ground (arith, all-drop_entry k es)

  pub all-carry-grant :
      (key : ℕ) (n : Net) (es : List Entry)
      → p (record { key = key; ips = n ∷ [] }) ≡ true
      → all p es ≡ true
      → all p (carry (grant key n) es) ≡ true
  unfolding carry
  all-carry-grant key n es h k = ground (arith, all-drop_entry key es k)

  pub all-carry_all-removals :
      (runtime : List Entry) (bs : List Binding) (es : List Entry)
      → all p es ≡ true
      → all p (carry_all (removals runtime bs) es) ≡ true
  unfolding carry_all carry removals
  all-carry_all-removals runtime [] es h = h
  all-carry_all-removals runtime (b ∷ bs) es h = ground (
    arith,
    all-carry_all-removals runtime bs es h,
    all-carry_all-removals runtime bs (drop_entry b.public_key es),
    all-drop_entry b.public_key es h,
  )
