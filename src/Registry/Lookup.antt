-- ===== src/Registry/Lookup.antt =====
-- toolbox/registry.py: look-ups after writes, and the distinctness of namespaces.
use toolbox_mcp.Prelude.{
  ◌≤◌, String, ◌≡◌, refl, ap, subst, Bool, ◌&&◌, ◌⊎◌, inl, inr, is_some, Bool-cases, true, false,
  not, ◌||◌, Option, none, some, List, [], ◌∷◌, map, arith, if◌then◌else◌, ◌==◌, string_eq,
  contains, IsDistinct, eq_iff, All, length,
}
use mathlib.Core.Option.{some-injective}
use toolbox_mcp.Models.{ToolsetRecord, SchemaSnapshot, StateDocument}
use toolbox_mcp.Registry.{
  upsert_by, find_by, without_by, record_name, snapshot_name, get_toolset, upsert_toolset,
  delete_toolset, get_schema_snapshot, get_previous_schema_snapshot, replace_schema_snapshot,
  keep_previous,
}

module _ {ℓ} {A : Type ℓ} (name : A → String) where
  pub find_by-upsert_by :
      (k : String) (a : A) (xs : List A)
      → find_by name k (upsert_by name a xs) ≡ (if name a == k then some a else find_by name k xs)
  unfolding find_by upsert_by
  find_by-upsert_by k a [] = refl
  find_by-upsert_by k a (x ∷ xs) = ground (
    arith,
    find_by-upsert_by k a xs,
    eq_iff (name x) (name a),
    eq_iff (name x) k,
    eq_iff (name a) k,
  )

  pub find_by-without_by :
      (k j : String) (xs : List A)
      → find_by name k (without_by name j xs) ≡ (if j == k then none else find_by name k xs)
  unfolding find_by without_by
  find_by-without_by k j [] = ground arith
  find_by-without_by k j (x ∷ xs) =
      ground (arith, find_by-without_by k j xs, eq_iff (name x) j, eq_iff (name x) k, eq_iff j k)

  names-upsert_by :
      (k : String) (a : A) (xs : List A)
      → contains (map name (upsert_by name a xs)) k ≡ (contains (map name xs) k || name a == k)
  unfolding upsert_by
  names-upsert_by k a [] = ground arith
  names-upsert_by k a (x ∷ xs) = ground (
    arith,
    names-upsert_by k a xs,
    eq_iff (name x) (name a),
    eq_iff (name x) k,
    eq_iff (name a) k,
  )

  pub upsert_by-IsDistinct :
      (a : A) (xs : List A) → IsDistinct (map name xs) → IsDistinct (map name (upsert_by name a xs))
  unfolding upsert_by
  upsert_by-IsDistinct a [] h = (refl, tt)
  upsert_by-IsDistinct a (x ∷ xs) h = ground (
    arith,
    upsert_by-IsDistinct a xs h.1,
    names-upsert_by (name x) a xs,
    eq_iff (name x) (name a),
    eq_iff (name a) (name x),
  )

  names-without_by :
      (k j : String) (xs : List A)
      → contains (map name xs) k ≡ false
      → contains (map name (without_by name j xs)) k ≡ false
  unfolding without_by
  names-without_by k j [] h = refl
  names-without_by k j (x ∷ xs) h = ground (arith, names-without_by k j xs)

  pub without_by-IsDistinct :
      (j : String) (xs : List A)
      → IsDistinct (map name xs)
      → IsDistinct (map name (without_by name j xs))
  unfolding without_by
  without_by-IsDistinct j [] h = tt
  without_by-IsDistinct j (x ∷ xs) h =
      ground (arith, without_by-IsDistinct j xs h.1, names-without_by (name x) j xs)

  length-without_by : (j : String) (xs : List A) → length (without_by name j xs) ≤ length xs
  unfolding without_by
  length-without_by j [] = omega arith
  length-without_by j (x ∷ xs) = ground (arith, length-without_by j xs)

  -- The test of the delete methods: a list that loses nothing is as it was.
  pub without_by_all :
      (j : String) (xs : List A)
      → length (without_by name j xs) ≡ length xs
      → without_by name j xs ≡ xs
  unfolding without_by
  without_by_all j [] h = refl
  without_by_all j (x ∷ xs) h = ground (arith, length-without_by j xs, without_by_all j xs)

module _ {ℓ κ} {A : Type ℓ} (P : A → Type κ) (name : A → String) where
  pub All-upsert_by : (a : A) (xs : List A) → P a → All P xs → All P (upsert_by name a xs)
  unfolding upsert_by
  All-upsert_by a [] p h = (p, tt)
  All-upsert_by a (x ∷ xs) p h =
      elim (name x == a_name) as (λ b. All P (if b then a ∷ xs else x ∷ upsert_by name a xs)) [
        | true ↦ (p, h.1)
        | false ↦ (h.0, All-upsert_by a xs p h.1)
      ]
    where
      a_name : String
      a_name = name a

  pub All-without_by : (j : String) (xs : List A) → All P xs → All P (without_by name j xs)
  unfolding without_by
  All-without_by j [] h = tt
  All-without_by j (x ∷ xs) h =
      elim (name x == j)
        as (λ b. All P (if not b then x ∷ without_by name j xs else without_by name j xs)) [
          | true ↦ All-without_by j xs h.1
          | false ↦ (h.0, All-without_by j xs h.1)
        ]

  pub All-find_by : (k : String) (xs : List A) {a : A} → All P xs → find_by name k xs ≡ some a → P a
  unfolding find_by
  All-find_by k [] h e = cc
  All-find_by k (x ∷ xs) {a} h e = at (name x == k) (λ rest. All-find_by k xs h.1 rest) e
    where
      at :
          (b : Bool)
          → (find_by name k xs ≡ some a → P a)
          → (if b then some x else find_by name k xs) ≡ some a
          → P a
      at true later found = subst P (some-injective x a found) h.0
      at false later found = later found

module _ {ℓ} {A : Type ℓ} (name : A → String) where
  -- What is found under a namespace has that namespace.
  pub name_of_find_by : (k : String) (xs : List A) (a : A) → find_by name k xs ≡ some a → name a ≡ k
  unfolding find_by
  name_of_find_by k [] a e = cc
  name_of_find_by k (x ∷ xs) a e = ground (arith, name_of_find_by k xs a, eq_iff (name x) k)

-- After an upsert a look-up finds the new record under its namespace, and under any other what it found
-- before.
pub get-upsert_toolset :
    (d : StateDocument) (r : ToolsetRecord) (k : String)
    → get_toolset (upsert_toolset r d).1 k ≡ (if r.namespace == k then some r else get_toolset d k)
unfolding get_toolset upsert_toolset
get-upsert_toolset d r k = find_by-upsert_by record_name k r d.toolsets

-- After a deletion a look-up finds nothing under the namespace, and under any other what it found before.
pub get-delete_toolset :
    (d : StateDocument) (j k : String)
    → get_toolset (delete_toolset j d).1 k ≡ (if j == k then none else get_toolset d k)
unfolding get_toolset delete_toolset
get-delete_toolset d j k =
    ground (
      arith,
      find_by-without_by record_name k j d.toolsets,
      without_by_all record_name j d.toolsets,
    )

previous_after :
    (o : Option SchemaSnapshot) (ps : List SchemaSnapshot) (j k : String)
    → ((c : SchemaSnapshot) → o ≡ some c → c.namespace ≡ j)
    → find_by snapshot_name k (keep_previous o ps)
      ≡ (if j == k && is_some o then o else find_by snapshot_name k ps)
unfolding keep_previous
previous_after none ps j k h = ground arith
previous_after (some c) ps j k h = ground (arith, find_by-upsert_by snapshot_name k c ps, h c refl)

-- Replacing a snapshot makes the current one the previous one of its namespace, and touches no other
-- namespace; without a current one the previous one stays.
pub get-replace_schema_snapshot :
    (d : StateDocument) (s : SchemaSnapshot) (k : String)
    → let d' = (replace_schema_snapshot s d).1 in
      (get_schema_snapshot d' k ≡ (if s.namespace == k then some s else get_schema_snapshot d k))
      × (get_previous_schema_snapshot d' k ≡ (
          if s.namespace == k && is_some (get_schema_snapshot d k)
          then get_schema_snapshot d k
          else get_previous_schema_snapshot d k))
unfolding get_schema_snapshot get_previous_schema_snapshot replace_schema_snapshot keep_previous
get-replace_schema_snapshot d s k =
    (find_by-upsert_by snapshot_name k s d.schema_cache, at (Bool-cases (s.namespace == k)))
  where
    current : Option SchemaSnapshot
    current = find_by snapshot_name s.namespace d.schema_cache

    after : find_by snapshot_name k (keep_previous current d.previous_schema_cache) ≡ (
        if s.namespace == k && is_some current
        then current
        else find_by snapshot_name k d.previous_schema_cache)
    after =
        previous_after current d.previous_schema_cache s.namespace k
          (name_of_find_by snapshot_name s.namespace d.schema_cache)

    at :
        ((s.namespace == k) ≡ true) ⊎ ((s.namespace == k) ≡ false)
        → find_by snapshot_name k (keep_previous current d.previous_schema_cache) ≡ (
            if s.namespace == k && is_some (find_by snapshot_name k d.schema_cache)
            then find_by snapshot_name k d.schema_cache
            else find_by snapshot_name k d.previous_schema_cache)
    at (inl same) =
        let e : s.namespace ≡ k = (eq_iff s.namespace k).0 same in
        ground (arith, after, ap (λ (j : String). find_by snapshot_name j d.schema_cache) e)
    at (inr other) = ground (arith, after)
