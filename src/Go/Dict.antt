-- ===== src/Go/Dict.antt =====
-- A Go map (or sync.Map) with number keys, as an association list. An insertion overwrites.
use golinker.Base.{
  ℕ, suc, ◌≡◌, refl, false, Option, none, some, List, [], ◌∷◌, arith, ◌==◌, if◌then◌else◌, length,
}

module _ {ℓ} {V : Type ℓ} where
  unfoldable pub lookup : ℕ → List (ℕ × V) → Option V
  lookup k [] = none
  lookup k ((j, v) ∷ entries) = if j == k then some v else lookup k entries

  unfoldable pub insert : ℕ → V → List (ℕ × V) → List (ℕ × V)
  insert k v [] = (k, v) ∷ []
  insert k v ((j, other) ∷ entries) =
      if j == k then (k, v) ∷ entries else (j, other) ∷ insert k v entries

  unfoldable pub delete : ℕ → List (ℕ × V) → List (ℕ × V)
  delete k [] = []
  delete k ((j, other) ∷ entries) = if j == k then entries else (j, other) ∷ delete k entries

  -- Each key occurs once.
  abbrev pub Absent : ℕ → List (ℕ × V) → Type ℓ
  Absent k entries = lookup k entries ≡ none

  abbrev pub Distinct : List (ℕ × V) → Type ℓ
  Distinct [] = Unit
  Distinct ((j, v) ∷ entries) = Absent j entries × Distinct entries

  pub lookup-insert :
      (k j : ℕ) (v : V) (entries : List (ℕ × V))
      → lookup j (insert k v entries) ≡ (if k == j then some v else lookup j entries)
  unfolding lookup insert
  lookup-insert k j v [] = refl
  lookup-insert k j v ((i, other) ∷ entries) = ground (arith, lookup-insert k j v entries)

  pub lookup-delete_ne :
      (k j : ℕ) (entries : List (ℕ × V))
      → (k == j) ≡ false
      → lookup j (delete k entries) ≡ lookup j entries
  unfolding lookup delete
  lookup-delete_ne k j [] h = refl
  lookup-delete_ne k j ((i, other) ∷ entries) h = ground (arith, lookup-delete_ne k j entries)

  pub lookup-delete_self :
      (k : ℕ) (entries : List (ℕ × V)) → Distinct entries → lookup k (delete k entries) ≡ none
  unfolding lookup delete
  lookup-delete_self k [] d = refl
  lookup-delete_self k ((i, other) ∷ entries) d = ground (arith, lookup-delete_self k entries d.1)

  pub Distinct-insert :
      (k : ℕ) (v : V) (entries : List (ℕ × V)) → Distinct entries → Distinct (insert k v entries)
  unfolding lookup insert
  Distinct-insert k v [] d = (refl, tt)
  Distinct-insert k v ((i, other) ∷ entries) d =
      ground (arith, Distinct-insert k v entries d.1, lookup-insert k i v entries)

  pub Distinct-delete :
      (k : ℕ) (entries : List (ℕ × V)) → Distinct entries → Distinct (delete k entries)
  unfolding lookup delete
  Distinct-delete k [] d = tt
  Distinct-delete k ((i, other) ∷ entries) d =
      ground (arith, Distinct-delete k entries d.1, lookup-delete_ne k i entries)

  pub length-insert_new :
      (k : ℕ) (v : V) (entries : List (ℕ × V))
      → lookup k entries ≡ none
      → length (insert k v entries) ≡ suc (length entries)
  unfolding lookup insert
  length-insert_new k v [] h = refl
  length-insert_new k v ((i, other) ∷ entries) h = ground (arith, length-insert_new k v entries)

  pub length-delete_found :
      (k : ℕ) (v : V) (entries : List (ℕ × V))
      → lookup k entries ≡ some v
      → suc (length (delete k entries)) ≡ length entries
  unfolding lookup delete
  length-delete_found k v [] h = cc
  length-delete_found k v ((i, other) ∷ entries) h = ground (arith, length-delete_found k v entries)

  pub delete_absent :
      (k : ℕ) (entries : List (ℕ × V)) → lookup k entries ≡ none → delete k entries ≡ entries
  unfolding lookup delete
  delete_absent k [] h = refl
  delete_absent k ((i, other) ∷ entries) h = ground (arith, delete_absent k entries)

  pub delete-insert_new :
      (k : ℕ) (v : V) (entries : List (ℕ × V))
      → lookup k entries ≡ none
      → delete k (insert k v entries) ≡ entries
  unfolding lookup insert delete
  delete-insert_new k v [] h = ground arith
  delete-insert_new k v ((i, other) ∷ entries) h = ground (arith, delete-insert_new k v entries)

  pub lookup-insert_self :
      (k : ℕ) (v : V) (entries : List (ℕ × V)) → lookup k (insert k v entries) ≡ some v
  lookup-insert_self k v entries = ground (arith, lookup-insert k k v entries)
