-- ===== src/Middleware/Permission/Coherence.antt =====
-- The cache agrees with the rows that it was filled from, and a read keeps it so
-- (internal/middleware/permission.go).
use golang_base.Base.{
  Option, none, some, List, [], ◌∷◌, Text, ◌≡◌, sym, ◌≢◌, ◌⊎◌, inl, inr, arith, Option-cases,
}
use golang_base.Domain.{user_cache_key, role_cache_key, cache_ttl, RolePermission, UserPermission}
use golang_base.Domain.Errors.{Result, ok, Result-cases}
use golang_base.Infra.{Redis, Codec, World}
use golang_base.Infra.Laws.{RedisLaws, CodecLaws}
use golang_base.Middleware.Permission.{
  CachedAuthRepository, cached_rows, cache_rows, cached_get, cached_get_role_permissions,
  cached_get_user_permissions,
}

pub role_cache_key-injective : (a b : Text) → role_cache_key a ≡ role_cache_key b → a ≡ b
role_cache_key-injective a b h = cc

pub user_cache_key-injective : (a b : Text) → user_cache_key a ≡ user_cache_key b → a ≡ b
user_cache_key-injective a b h = cc

pub role_cache_key-ne-user_cache_key : (a b : Text) → role_cache_key a ≢ user_cache_key b
role_cache_key-ne-user_cache_key a b h = absurd (ground arith)

-- `redis.Get`, if Redis is there.
abbrev pub get_value : {R : Type 0} → Redis R → Text → Option R → Option Text
get_value redis key none = none
get_value redis key (some r) = redis.get key r

module _ {R A : Type 0} (redis : Redis R) (laws : RedisLaws redis)
    (marshal : List A → Option Text) where
  -- What is under a key after rows were cached under another was there before, or is those rows.
  pub get_value-cache_rows :
      (key j b : Text) (rows : List A) (r : Option R)
      → get_value redis j (cache_rows redis marshal key rows r) ≡ some b
      → ((j ≡ key) × (marshal rows ≡ some b)) ⊎ (get_value redis j r ≡ some b)
  unfolding cache_rows
  get_value-cache_rows key j b rows none h = inr h
  get_value-cache_rows key j b [] (some r) h = inr h
  get_value-cache_rows key j b (row ∷ rows) (some r) h =
      elim (Option-cases (marshal (row ∷ rows))) [
        | inl failed ↦ inr (ground arith)
        | inr (v, e) ↦ elim (laws.get_set key v j b cache_ttl r (ground arith)) [
          | inl (same, value) ↦ inl (same, ground arith)
          | inr old ↦ inr old
        ]
      ]

module _ {S R A : Type 0} (redis : Redis R) (marshal : List A → Option Text)
    (unmarshal : Text → Option (List A)) (key : Text) (fetch : S → Result (List A)) where
  cached_rows-get_value :
      (r : Option R) (rows : List A)
      → cached_rows redis unmarshal key r ≡ some rows
      → (b : Text) × (get_value redis key r ≡ some b) × (unmarshal b ≡ some rows)
  unfolding cached_rows
  cached_rows-get_value none rows h = cc
  cached_rows-get_value (some r) rows h = elim (Option-cases (redis.get key r)) [
    | inl missing ↦ absurd (ground arith)
    | inr (b, e) ↦ (b, e, ground arith)
  ]

  cached_get-fst :
      (w : World S R)
      → ((b : Text) (rows : List A)
          → get_value redis key w.redis ≡ some b
          → unmarshal b ≡ some rows
          → fetch w.store ≡ ok rows)
      → (cached_get redis marshal unmarshal key fetch w).0 ≡ fetch w.store
  unfolding cached_get
  cached_get-fst w h = elim (Option-cases (cached_rows redis unmarshal key w.redis)) [
    | inl missing ↦ ground arith
    | inr (rows, hit) ↦
        let (b, found, e) = cached_rows-get_value w.redis rows hit in
        ground (arith, h b rows found e)
  ]

  cached_get-get_value :
      RedisLaws redis
      → (j b : Text) (w : World S R)
      → get_value redis j (cached_get redis marshal unmarshal key fetch w).1.redis ≡ some b
      → (get_value redis j w.redis ≡ some b)
        ⊎ ((j ≡ key) × ((rows : List A) × (marshal rows ≡ some b) × (fetch w.store ≡ ok rows)))
  unfolding cached_get
  cached_get-get_value laws j b w h =
      elim (Option-cases (cached_rows redis unmarshal key w.redis)) [
        | inr (rows, hit) ↦ inl (ground arith)
        | inl missing ↦ elim (Result-cases (fetch w.store)) [
          | inr (e, failed) ↦ inl (ground arith)
          | inl (rows, fetched) ↦
              elim (get_value-cache_rows redis laws marshal key j b rows w.redis (ground arith)) [
                | inl (same, value) ↦ inr (same, (rows, value, fetched))
                | inr old ↦ inl old
              ]
        ]
      ]

module _ {S R : Type 0} (redis : Redis R) (codec : Codec) (repo : CachedAuthRepository S) where
  -- Whatever is cached for a role or a user is what the repository would return now.
  pub record IsCoherent (w : World S R) : Type 0 where
    pub roles :
        (role b : Text) (rows : List RolePermission)
        → get_value redis (role_cache_key role) w.redis ≡ some b
        → codec.unmarshal_roles b ≡ some rows
        → repo.get_role_permissions role w.store ≡ ok rows
    pub users :
        (user_id b : Text) (rows : List UserPermission)
        → get_value redis (user_cache_key user_id) w.redis ≡ some b
        → codec.unmarshal_users b ≡ some rows
        → repo.get_user_permissions user_id w.store ≡ ok rows

  -- A coherent cached read returns what the repository returns, and changes no table.
  pub cached_get_role-fst :
      (role : Text) (w : World S R)
      → IsCoherent w
      → (cached_get_role_permissions redis codec repo role w).0
        ≡ repo.get_role_permissions role w.store
  unfolding cached_get_role_permissions
  cached_get_role-fst role w h =
      cached_get-fst redis codec.marshal_roles codec.unmarshal_roles (role_cache_key role)
        (repo.get_role_permissions role) w (h.roles role)

  pub cached_get_user-fst :
      (user_id : Text) (w : World S R)
      → IsCoherent w
      → (cached_get_user_permissions redis codec repo user_id w).0
        ≡ repo.get_user_permissions user_id w.store
  unfolding cached_get_user_permissions
  cached_get_user-fst user_id w h =
      cached_get-fst redis codec.marshal_users codec.unmarshal_users (user_cache_key user_id)
        (repo.get_user_permissions user_id) w (h.users user_id)

  pub cached_get_role-store :
      (role : Text) (w : World S R)
      → (cached_get_role_permissions redis codec repo role w).1.store ≡ w.store
  unfolding cached_get_role_permissions cached_get
  cached_get_role-store role w = ground arith

  pub cached_get_user-store :
      (user_id : Text) (w : World S R)
      → (cached_get_user_permissions redis codec repo user_id w).1.store ≡ w.store
  unfolding cached_get_user_permissions cached_get
  cached_get_user-store user_id w = ground arith

  after_role :
      RedisLaws redis
      → (role j b : Text) (w : World S R)
      → get_value redis j (cached_get_role_permissions redis codec repo role w).1.redis ≡ some b
      → (get_value redis j w.redis ≡ some b)
        ⊎ ((j ≡ role_cache_key role)
            × ((rows : List RolePermission) × (codec.marshal_roles rows ≡ some b)
                × (repo.get_role_permissions role w.store ≡ ok rows)))
  unfolding cached_get_role_permissions
  after_role laws role j b w h =
      cached_get-get_value redis codec.marshal_roles codec.unmarshal_roles (role_cache_key role)
        (repo.get_role_permissions role) laws j b w h

  after_user :
      RedisLaws redis
      → (user_id j b : Text) (w : World S R)
      → get_value redis j (cached_get_user_permissions redis codec repo user_id w).1.redis ≡ some b
      → (get_value redis j w.redis ≡ some b)
        ⊎ ((j ≡ user_cache_key user_id)
            × ((rows : List UserPermission) × (codec.marshal_users rows ≡ some b)
                × (repo.get_user_permissions user_id w.store ≡ ok rows)))
  unfolding cached_get_user_permissions
  after_user laws user_id j b w h =
      cached_get-get_value redis codec.marshal_users codec.unmarshal_users (user_cache_key user_id)
        (repo.get_user_permissions user_id) laws j b w h

  module _ (redis_laws : RedisLaws redis) (codec_laws : CodecLaws codec) where
    -- What is cached under a role's key after a cached read, is what the repository returns.
    pub cached_get_role-IsCoherent :
        (role : Text) (w : World S R)
        → IsCoherent w
        → IsCoherent (cached_get_role_permissions redis codec repo role w).1
    cached_get_role-IsCoherent role w h = record {
      roles = λ role' b rows found e.
          rw (cached_get_role-store role w)
            (elim (after_role redis_laws role (role_cache_key role') b w found) [
              | inl old ↦ h.roles role' b rows old e
              | inr (same, (rows', marshalled, fetched)) ↦ ground (
                arith,
                role_cache_key-injective role' role same,
                codec_laws.unmarshal-marshal_roles rows' b marshalled,
              )
            ]);
      users = λ user_id b rows found e.
          rw (cached_get_role-store role w)
            (elim (after_role redis_laws role (user_cache_key user_id) b w found) [
              | inl old ↦ h.users user_id b rows old e
              | inr (same, new) ↦ absurd (role_cache_key-ne-user_cache_key role user_id (sym same))
            ]);
    }

    pub cached_get_user-IsCoherent :
        (user_id : Text) (w : World S R)
        → IsCoherent w
        → IsCoherent (cached_get_user_permissions redis codec repo user_id w).1
    cached_get_user-IsCoherent user_id w h = record {
      roles = λ role b rows found e.
          rw (cached_get_user-store user_id w)
            (elim (after_user redis_laws user_id (role_cache_key role) b w found) [
              | inl old ↦ h.roles role b rows old e
              | inr (same, new) ↦ absurd (role_cache_key-ne-user_cache_key role user_id same)
            ]);
      users = λ user_id' b rows found e.
          rw (cached_get_user-store user_id w)
            (elim (after_user redis_laws user_id (user_cache_key user_id') b w found) [
              | inl old ↦ h.users user_id' b rows old e
              | inr (same, (rows', marshalled, fetched)) ↦ ground (
                arith,
                user_cache_key-injective user_id' user_id same,
                codec_laws.unmarshal-marshal_users rows' b marshalled,
              )
            ]);
    }
