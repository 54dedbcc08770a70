-- ===== src/Resources/Keys.antt =====
-- Which accounts `assertSingleOwnerPermission` of src/resource-service.ts lets through.
use catfee_io.Base.{
  true, false, Option, none, some, List, [], ◌∷◌, ◌≡◌, ◌⊎◌, inl, inr, refl, ap, arith, ◌↔◌,
  Bool-cases, Option-cases, ◌==◌, ==_eq, ==_refl, ◌&&◌,
}
use catfee_io.Base.Int.{ℤ, pos, ltb_ℤ, ◌≤ℤ◌}
use catfee_io.Base.Results.{ok, Result-cases}
use catfee_io.Table.Laws.{All}
use catfee_io.Store.{Address}
use catfee_io.ResourceMath.{Value, undefined, null, empty_text, malformed, integer}
use catfee_io.Resources.{
  KeyEntry, PermissionField, not_record, key, not_text, invalid_address, valid_address, Permission,
  not_object, permission, Account, positive_big_int, is_wrong_id, is_wrong_type, heavier, read_key,
  matching_weight, assert_keys, assert_permission, permission_of, assert_single_owner_permission,
}

-- An entry with an address and a positive weight.
abbrev pub IsReadable : KeyEntry → Type 0
IsReadable (key (valid_address a) (integer w)) = ltb_ℤ (pos 0) w ≡ true
IsReadable _ = ⊥

-- The entry is a key of the address whose weight reaches the threshold.
abbrev pub Opens : Address → ℤ → KeyEntry → Type 0
Opens owner threshold (key (valid_address a) (integer w)) = (a ≡ owner) × (threshold ≤ℤ w)
Opens _ _ _ = ⊥

-- One of the entries is.
abbrev pub SomeOpens : Address → ℤ → List KeyEntry → Type 0
SomeOpens owner threshold [] = ⊥
SomeOpens owner threshold (k ∷ ks) = Opens owner threshold k ⊎ SomeOpens owner threshold ks

-- The owner can sign alone under the permission: it is well formed, and one key of the owner has a
-- weight that reaches the positive threshold.
abbrev pub IsSole : Permission → Address → Type 0
IsSole p owner =
    (is_wrong_id p.id ≡ false)
    × (is_wrong_type p.permission_type ≡ false)
    × ((threshold : ℤ) × (p.threshold ≡ integer threshold)
        × (ltb_ℤ (pos 0) threshold ≡ true)
        × ((ks : List KeyEntry) × (p.keys ≡ some ks)
            × All IsReadable ks
            × SomeOpens owner threshold ks))

abbrev pub IsAuthorized : Account → Address → Type 0
IsAuthorized account owner =
    (permission_of account ≡ none)
    ⊎ ((p : Permission) × (permission_of account ≡ some (permission p)) × IsSole p owner)

module _ (owner : Address) where
  -- An entry that is read is readable, and raises the weight to that of a key of the owner at most.
  read_key_sound :
      (k : KeyEntry) (m x : ℤ)
      → read_key owner k m ≡ ok x
      → IsReadable k × ((t : ℤ) → t ≤ℤ x → (t ≤ℤ m) ⊎ Opens owner t k)
  unfolding read_key heavier positive_big_int
  read_key_sound (key (valid_address a) (integer w)) m x e = elim (Bool-cases (ltb_ℤ (pos 0) w)) [
    | inl light ↦ elim (Bool-cases ((a == owner) && ltb_ℤ m w)) [
      | inl more ↦ (light, λ t h. inr (==_eq a owner (ground arith), ground arith))
      | inr less ↦ (light, λ t h. inl (ground arith))
    ]
    | inr heavy ↦ absurd (ground arith)
  ]
  read_key_sound not_record m x e = absurd (ground arith)
  read_key_sound (key not_text w) m x e = absurd (ground arith)
  read_key_sound (key invalid_address w) m x e = absurd (ground arith)
  read_key_sound (key (valid_address a) undefined) m x e = absurd (ground arith)
  read_key_sound (key (valid_address a) null) m x e = absurd (ground arith)
  read_key_sound (key (valid_address a) empty_text) m x e = absurd (ground arith)
  read_key_sound (key (valid_address a) malformed) m x e = absurd (ground arith)

  -- A readable entry is read, and the weight is then no less than before, or than that of the key.
  read_key_complete :
      (k : KeyEntry) (m : ℤ)
      → IsReadable k
      → (x : ℤ) × (read_key owner k m ≡ ok x) × ((t : ℤ) → (t ≤ℤ m) ⊎ Opens owner t k → t ≤ℤ x)
  unfolding read_key heavier positive_big_int
  read_key_complete not_record m v = elim v [ ]
  read_key_complete (key not_text _) m v = elim v [ ]
  read_key_complete (key invalid_address _) m v = elim v [ ]
  read_key_complete (key (valid_address a) undefined) m v = elim v [ ]
  read_key_complete (key (valid_address a) null) m v = elim v [ ]
  read_key_complete (key (valid_address a) empty_text) m v = elim v [ ]
  read_key_complete (key (valid_address a) malformed) m v = elim v [ ]
  read_key_complete (key (valid_address a) (integer w)) m v = (
    heavier owner a w m,
    ground (arith, v),
    λ t c. elim c [ inl h ↦ ground arith | inr h ↦ ground (arith, ==_refl owner) ],
  )

  sound :
      (ks : List KeyEntry) (m w : ℤ)
      → matching_weight owner ks m ≡ ok w
      → All IsReadable ks × ((t : ℤ) → t ≤ℤ w → (t ≤ℤ m) ⊎ SomeOpens owner t ks)
  unfolding matching_weight
  sound [] m w e = (tt, λ t h. inl (ground arith))
  sound (k ∷ ks) m w e = elim (Result-cases (read_key owner k m)) [
    | inr (x, bad) ↦ absurd (ground arith)
    | inl (x, good) ↦
        let now = read_key_sound k m x good in
        let later = sound ks x w (ground arith) in
        (
          (now.0, later.0),
          λ t h. elim (later.1 t h) [
            | inr here ↦ inr (inr here)
            | inl below ↦ elim (now.1 t below) [ inl h ↦ inl h | inr h ↦ inr (inl h) ]
          ],
        )
  ]

  complete :
      (ks : List KeyEntry) (m : ℤ)
      → All IsReadable ks
      → (w : ℤ) × (matching_weight owner ks m ≡ ok w)
        × ((t : ℤ) → (t ≤ℤ m) ⊎ SomeOpens owner t ks → t ≤ℤ w)
  unfolding matching_weight
  complete [] m v = (m, refl, λ t c. elim c [ inl h ↦ h | inr h ↦ elim h [ ] ])
  complete (k ∷ ks) m v =
      let now = read_key_complete k m v.0 in
      let later = complete ks now.0 v.1 in
      (
        later.0,
        rw now.1 later.1,
        λ t c. elim c [
          | inl h ↦ later.2 t (inl (now.2 t (inl h)))
          | inr (inl h) ↦ later.2 t (inl (now.2 t (inr h)))
          | inr (inr h) ↦ later.2 t (inr h)
        ],
      )

positive_big_int-positive :
    (v : Value) (t : ℤ) → positive_big_int v ≡ some t → (v ≡ integer t) × (ltb_ℤ (pos 0) t ≡ true)
unfolding positive_big_int
positive_big_int-positive (integer w) t e = elim (Bool-cases (ltb_ℤ (pos 0) w)) [
  | inl h ↦ let same : w ≡ t = ground arith in (ap integer same, rw (← same) h)
  | inr h ↦ absurd (ground arith)
]
positive_big_int-positive undefined t e = absurd (ground arith)
positive_big_int-positive null t e = absurd (ground arith)
positive_big_int-positive empty_text t e = absurd (ground arith)
positive_big_int-positive malformed t e = absurd (ground arith)

assert_keys_sound :
    (owner : Address) (t : ℤ) (ks : List KeyEntry)
    → ltb_ℤ (pos 0) t ≡ true
    → assert_keys owner t ks ≡ ok tt
    → All IsReadable ks × SomeOpens owner t ks
unfolding assert_keys
assert_keys_sound owner t [] positive e = absurd (ground arith)
assert_keys_sound owner t (k ∷ ks) positive e =
    elim (Result-cases (matching_weight owner (k ∷ ks) (pos 0))) [
      | inr (x, bad) ↦ absurd (ground arith)
      | inl (w, good) ↦
          let s = sound owner (k ∷ ks) (pos 0) w good in
          (s.0, elim (s.1 t (ground arith)) [ inr h ↦ h | inl h ↦ absurd (ground arith) ])
    ]

assert_keys_complete :
    (owner : Address) (t : ℤ) (ks : List KeyEntry)
    → All IsReadable ks
    → SomeOpens owner t ks
    → assert_keys owner t ks ≡ ok tt
unfolding assert_keys
assert_keys_complete owner t [] v h = elim h [ ]
assert_keys_complete owner t (k ∷ ks) v h =
    let c = complete owner (k ∷ ks) (pos 0) v in
    let enough = c.2 t (inr h) in ground (arith, c.1, enough)

assert_permission_sound :
    (p : Permission) (owner : Address) → assert_permission p owner ≡ ok tt → IsSole p owner
unfolding assert_permission
assert_permission_sound p owner e = elim (Option-cases (positive_big_int p.threshold)) [
  | inl bad ↦ absurd (ground arith)
  | inr (t, et) ↦ elim (Option-cases p.keys) [
    | inl bad ↦ absurd (ground arith)
    | inr (ks, ek) ↦
        let positive = positive_big_int-positive p.threshold t et in
        let keys = assert_keys_sound owner t ks positive.1 (ground arith) in
        (ground arith, ground arith, (t, positive.0, positive.1, (ks, ek, keys.0, keys.1)))
  ]
]

assert_permission_complete :
    (p : Permission) (owner : Address) → IsSole p owner → assert_permission p owner ≡ ok tt
unfolding assert_permission positive_big_int
assert_permission_complete p owner (id, type, (t, et, positive, (ks, ek, v, h))) =
    rw (id, type, et, positive, ek) (assert_keys_complete owner t ks v h)

-- assertSingleOwnerPermission lets an account pass exactly if the account shows no owner permission, or
-- one under which the owner signs alone: its id and type are those of an owner permission, its
-- threshold is positive, every entry of its keys has an address and a positive weight, and one key of
-- the owner has a weight that reaches the threshold.
pub assert_single_owner_permission-IsAuthorized :
    (account : Account) (owner : Address)
    → (assert_single_owner_permission account owner ≡ ok tt) ↔ IsAuthorized account owner
unfolding assert_single_owner_permission
assert_single_owner_permission-IsAuthorized account owner =
    (lets_through (permission_of account) refl, accepts)
  where
    lets_through :
        (o : Option PermissionField)
        → permission_of account ≡ o
        → assert_single_owner_permission account owner ≡ ok tt
        → IsAuthorized account owner
    lets_through none eo e = inl eo
    lets_through (some not_object) eo e = absurd (ground arith)
    lets_through (some (permission p)) eo e =
        inr (p, eo, assert_permission_sound p owner (ground arith))

    accepts : IsAuthorized account owner → assert_single_owner_permission account owner ≡ ok tt
    accepts (inl eo) = rw (eo, assert_single_owner_permission) refl
    accepts (inr (p, eo, sole)) =
        rw (eo, assert_single_owner_permission) (assert_permission_complete p owner sole)
