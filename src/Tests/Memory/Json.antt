-- ===== src/Tests/Memory/Json.antt =====
-- A codec for the cached rows: a text is its length and its bytes, an option is 0, or 1 and the
-- value.
use golang_base.Base.{
  ℕ, zero, suc, Bool, true, false, Option, none, some, List, [], ◌∷◌, ◌++◌, Text, length, ◌≡◌, refl,
  arith,
}
use golang_base.Domain.{RolePermission, UserPermission}
use golang_base.Infra.{Codec}
use golang_base.Infra.Laws.{CodecLaws}

-- A reader takes a value off the front of a text.
abbrev pub Reader : Type 0 → Type 0
Reader A = Text → Option (A × Text)

infixl 5 ◌>>=◌
abbrev ◌>>=◌ : {A B : Type 0} → Reader A → (A → Reader B) → Reader B
◌>>=◌ m f b = elim (m b) [ none ↦ none | some (a, r) ↦ f a r ]

abbrev done : {A : Type 0} → A → Reader A
done a b = some (a, b)

unfoldable pub take_text : ℕ → Reader Text
take_text zero b = some ([], b)
take_text (suc n) [] = none
take_text (suc n) (x ∷ b) = elim (take_text n b) [ none ↦ none | some (t, r) ↦ some (x ∷ t, r) ]

unfoldable pub read_number : Reader ℕ
read_number [] = none
read_number (n ∷ b) = some (n, b)

unfoldable pub read_text : Reader Text
read_text = read_number >>= take_text

unfoldable pub write_text : Text → Text
write_text t = length t ∷ t

unfoldable pub read_bool : Reader Bool
read_bool [] = none
read_bool (zero ∷ b) = some (false, b)
read_bool (suc n ∷ b) = some (true, b)

unfoldable pub write_bool : Bool → ℕ
write_bool false = 0
write_bool true = 1

unfoldable pub read_option : {A : Type 0} → Reader A → Reader (Option A)
read_option m [] = none
read_option m (zero ∷ b) = some (none, b)
read_option m (suc n ∷ b) = elim (m b) [ none ↦ none | some (a, r) ↦ some (some a, r) ]

unfoldable pub write_option : {A : Type 0} → (A → Text) → Option A → Text
write_option f none = 0 ∷ []
write_option f (some a) = 1 ∷ f a

take_text-append : (t r : Text) → take_text (length t) (t ++ r) ≡ some (t, r)
unfolding take_text
take_text-append [] r = refl
take_text-append (x ∷ t) r = rw (take_text-append t r)

pub read-write_text : (t r : Text) → read_text (write_text t ++ r) ≡ some (t, r)
unfolding read_text write_text read_number
read-write_text t r = take_text-append t r

read-write_number :
    (o : Option ℕ) (r : Text)
    → read_option read_number (write_option (λ n. n ∷ []) o ++ r) ≡ some (o, r)
unfolding read_option write_option read_number
read-write_number none r = refl
read-write_number (some n) r = refl

read-write_option_text :
    (o : Option Text) (r : Text)
    → read_option read_text (write_option write_text o ++ r) ≡ some (o, r)
unfolding read_option write_option
read-write_option_text none r = refl
read-write_option_text (some t) r = rw (read-write_text t r, read_option)

unfoldable pub read_role : Reader RolePermission
read_role = do
  role ← read_text
  permission ← read_text
  created ← read_number
  expires ← read_option read_number
  done (record { role = role; permission = permission; created_at = created; expires_at = expires })

unfoldable pub write_role : RolePermission → Text → Text
write_role p r =
    write_text p.role
    ++ (write_text p.permission ++ (p.created_at ∷ (write_option (λ n. n ∷ []) p.expires_at ++ r)))

pub read-write_role : (p : RolePermission) (r : Text) → read_role (write_role p r) ≡ some (p, r)
unfolding read_role write_role read_number
read-write_role p r =
    let r₃ = write_option (λ (n : ℕ). n ∷ []) p.expires_at ++ r in
    ground (
      arith,
      read-write_text p.role (write_text p.permission ++ (p.created_at ∷ r₃)),
      read-write_text p.permission (p.created_at ∷ r₃),
      read-write_number p.expires_at r,
    )

unfoldable pub read_user : Reader UserPermission
read_user = do
  user_id ← read_text
  permission ← read_text
  granted ← read_bool
  assigned ← read_option read_text
  created ← read_number
  expires ← read_option read_number
  done (record {
    user_id = user_id;
    permission = permission;
    is_granted = granted;
    assigned_by = assigned;
    created_at = created;
    expires_at = expires;
  })

unfoldable pub write_user : UserPermission → Text → Text
write_user p r =
    write_text p.user_id
    ++ (write_text p.permission
        ++ (write_bool p.is_granted
            ∷ (write_option write_text p.assigned_by
                ++ (p.created_at ∷ (write_option (λ n. n ∷ []) p.expires_at ++ r)))))

read-write_bool : (b : Bool) (r : Text) → read_bool (write_bool b ∷ r) ≡ some (b, r)
unfolding read_bool write_bool
read-write_bool true r = refl
read-write_bool false r = refl

pub read-write_user : (p : UserPermission) (r : Text) → read_user (write_user p r) ≡ some (p, r)
unfolding read_user write_user read_number
read-write_user p r =
    let r₅ = write_option (λ (n : ℕ). n ∷ []) p.expires_at ++ r in
    let r₄ = write_option write_text p.assigned_by ++ (p.created_at ∷ r₅) in
    ground (
      arith,
      read-write_text p.user_id (write_text p.permission ++ (write_bool p.is_granted ∷ r₄)),
      read-write_text p.permission (write_bool p.is_granted ∷ r₄),
      read-write_bool p.is_granted r₄,
      read-write_option_text p.assigned_by (p.created_at ∷ r₅),
      read-write_number p.expires_at r,
    )

-- Lists: how many, then each.
module _ {A : Type 0} (reader : Reader A) (write : A → Text → Text)
    (inverse : (a : A) (r : Text) → reader (write a r) ≡ some (a, r)) where
  unfoldable pub read_rows : ℕ → Reader (List A)
  read_rows zero b = some ([], b)
  read_rows (suc n) b = elim (reader b) [
    | none ↦ none
    | some (a, r) ↦ elim (read_rows n r) [ none ↦ none | some (rows, r') ↦ some (a ∷ rows, r') ]
  ]

  unfoldable pub write_rows : List A → Text
  write_rows [] = []
  write_rows (a ∷ rows) = write a (write_rows rows)

  read-write_rows : (rows : List A) → read_rows (length rows) (write_rows rows) ≡ some (rows, [])
  unfolding read_rows write_rows
  read-write_rows [] = refl
  read-write_rows (a ∷ rows) = rw (inverse a (write_rows rows), read-write_rows rows)

  unfoldable pub marshal : List A → Option Text
  marshal rows = some (length rows ∷ write_rows rows)

  unfoldable pub unmarshal : Text → Option (List A)
  unmarshal [] = none
  unmarshal (n ∷ b) = elim (read_rows n b) [ none ↦ none | some (rows, r) ↦ some rows ]

  unmarshal-marshal : (rows : List A) (b : Text) → marshal rows ≡ some b → unmarshal b ≡ some rows
  unfolding marshal unmarshal
  unmarshal-marshal rows b h =
      let same : length rows ∷ write_rows rows ≡ b = cc in
      rw (← same) (rw (read-write_rows rows, unmarshal))

abbrev pub plain_codec : Codec
plain_codec = record {
  marshal_roles = marshal read_role write_role read-write_role;
  unmarshal_roles = unmarshal read_role write_role read-write_role;
  marshal_users = marshal read_user write_user read-write_user;
  unmarshal_users = unmarshal read_user write_user read-write_user;
}

pub plain_codec_laws : CodecLaws plain_codec
plain_codec_laws = record {
  unmarshal-marshal_roles = unmarshal-marshal read_role write_role read-write_role;
  unmarshal-marshal_users = unmarshal-marshal read_user write_user read-write_user;
}
