-- ===== src/Seed.antt =====
-- cmd/seed/seeders: the registry of seeders and their runs (seeder.go), the super admin
-- (super_admin.go) and the permissions of the roles (role_permissions.go). What is printed is left
-- out.
pub mod Runs
pub mod Matrix
use golang_base.Base.{
  ℕ, Bool, true, false, ◌||◌, Option, none, some, List, [], ◌∷◌, ◌++◌, Text, codes, ◌==◌, contains,
  Dict, lookup, has_key, keys, leb, ltb, if◌then◌else◌,
}
use golang_base.Base.Paths.{join_slash}
use golang_base.Domain.{Instant, zero_time, role_super_admin, User}
use golang_base.Domain.Errors.{Error, message, Result, ok, err}
use golang_base.Domain.Permissions.{Registry, all_permissions}
use golang_base.Infra.{Database, Write}
use golang_base.Infra.Monad.{Act, ◌>>=◌, ◌>>◌, give, ignore, skip}
use golang_base.Auth.Repository
use golang_base.Auth.Service.Accounts.{Bcrypt}

-- A seeder: `with_args` is its run after SetArgs, if it accepts arguments.
pub record Seeder (S : Type 0) : Type 0 where
  pub name : Text
  pub order : ℕ
  pub run : Write S
  pub with_args : Option (List Text → Write S)

-- `none` is the panic of a name that is there already.
unfoldable pub register : {S : Type 0} → Seeder S → Dict (Seeder S) → Option (Dict (Seeder S))
register s registry = if has_key s.name registry then none else some ((s.name, s) ∷ registry)

-- `strings.Join(keys, ", ")`
unfoldable pub join_names : List Text → Text
join_names [] = []
join_names (k ∷ []) = k
join_names (k ∷ l ∷ ks) = k ++ (codes ", " ++ join_names (l ∷ ks))

-- `fmt.Errorf("%s failed: %w", name, err)`
unfoldable pub name_failure : {S : Type 0} → (Error → Text) → Text → Write S → Write S
name_failure describe name m s =
    let (r, s') = m s in
    (elim r [ ok u ↦ ok u | err e ↦ err (message (name ++ (codes " failed: " ++ describe e))) ], s')

unfoldable pub run_of : {S : Type 0} → List Text → Seeder S → Write S
run_of args s = elim s.with_args [ none ↦ s.run | some run ↦ run args ]

unfoldable pub run_by_name :
    {S : Type 0} → (Error → Text) → Dict (Seeder S) → Text → List Text → Write S
run_by_name describe registry name args s = elim (lookup name registry) [
  | none ↦ (
    err (
        message (
          codes "seeder \""
          ++ (name ++ (codes "\" not found. Available: " ++ join_names (keys registry))))),
    s,
  )
  | some seeder ↦ name_failure describe name (run_of args seeder) s
]

-- The seeders of the registry, in one order of iteration.
unfoldable pub seeders_of : {S : Type 0} → Dict (Seeder S) → List (Seeder S)
seeders_of [] = []
seeders_of ((name, s) ∷ registry) = s ∷ seeders_of registry

-- `sort.SliceStable` by the order.
unfoldable pub insert_by_order : {S : Type 0} → Seeder S → List (Seeder S) → List (Seeder S)
insert_by_order x [] = x ∷ []
insert_by_order x (y ∷ ys) = if leb x.order y.order then x ∷ y ∷ ys else y ∷ insert_by_order x ys

unfoldable pub sort_by_order : {S : Type 0} → List (Seeder S) → List (Seeder S)
sort_by_order [] = []
sort_by_order (x ∷ xs) = insert_by_order x (sort_by_order xs)

-- The loop of RunAll.
unfoldable pub run_seeders : {S : Type 0} → (Error → Text) → List Text → List (Seeder S) → Write S
run_seeders describe excluded [] s = (ok tt, s)
run_seeders describe excluded (x ∷ xs) s = elim (contains x.name excluded) [
  | true ↦ run_seeders describe excluded xs s
  | false ↦ (name_failure describe x.name x.run >> run_seeders describe excluded xs) s
]

unfoldable pub run_all : {S : Type 0} → (Error → Text) → List Text → Dict (Seeder S) → Write S
run_all describe excluded registry =
    run_seeders describe excluded (sort_by_order (seeders_of registry))

-- The fields of SuperAdminSeed.
pub record SuperAdminSeed : Type 0 where
  pub email : Text
  pub password : Text
  pub role : Text

-- The argument, if it is there and not empty.
unfoldable pub arg_or : Text → Option Text → Text
arg_or old none = old
arg_or old (some []) = old
arg_or old (some (c ∷ cs)) = c ∷ cs

unfoldable pub set_args : List Text → SuperAdminSeed → SuperAdminSeed
set_args [] s = s
set_args (e ∷ []) s = record s { email = arg_or s.email (some e) }
set_args (e ∷ p ∷ []) s = record s {
  email = arg_or s.email (some e);
  password = arg_or s.password (some p);
}
set_args (e ∷ p ∷ r ∷ rest) s = record {
  email = arg_or s.email (some e);
  password = arg_or s.password (some p);
  role = arg_or s.role (some r);
}

-- The first of the texts that is not empty.
unfoldable pub first_set : Text → Text → Text
first_set [] b = b
first_set (c ∷ cs) b = c ∷ cs

abbrev wrapped : {S A : Type 0} → (Error → Text) → Text → Act S A → Act S A
wrapped describe text m s =
    let (r, s') = m s in
    (elim r [ ok a ↦ ok a | err e ↦ err (message (text ++ (codes ": " ++ describe e))) ], s')

module _ {S : Type 0} (db : Database S) (describe : Error → Text) where
  module _ (bcrypt : Bcrypt) (now : Instant) (uuid : Result Text) where
    -- The second half of Run: the user is refreshed or made.
    unfoldable pub write_super_admin : Text → Text → Text → Write S
    write_super_admin email role password s = elim (Repository.get_user_by_email db email s) [
      | ok existing ↦
          (wrapped describe (codes "failed to hash password") (give (bcrypt.generate password))
              >>= λ hashed. wrapped describe (codes "failed to update user") (
                  Repository.update_user db
                    (record existing {
                      roles = role ∷ [];
                      password = some hashed;
                      updated_at = now;
                    })
                    []))
            s
      | err e ↦
          (wrapped describe (codes "failed to hash password") (give (bcrypt.generate password))
              >>= λ hashed.
                  (wrapped describe (codes "failed to create super admin") (
                      Repository.create_user db uuid
                        (record {
                          id = [];
                          name = codes "Super Admin";
                          email = email;
                          password = some hashed;
                          roles = role ∷ [];
                          is_active = true;
                          created_at = now;
                          updated_at = now;
                        })
                        [])
                    >> skip))
            s
    ]

    -- Run, with the two environment variables.
    unfoldable pub run_super_admin : Text → Text → SuperAdminSeed → Write S
    run_super_admin env_email env_password seed s =
        let email = first_set (first_set seed.email env_email) (codes "admin@example.com") in
        let role = first_set seed.role role_super_admin in
        elim (first_set seed.password env_password) [
          | [] ↦ (
            err (message (codes "password required: pass via ARGS or SUPER_ADMIN_PASSWORD env")),
            s,
          )
          | c ∷ cs ↦ write_super_admin email role (c ∷ cs) s
        ]

  -- The permissions of one role; an error is passed over.
  unfoldable pub grant_all : Instant → Text → List Text → Write S
  grant_all now role [] = skip
  grant_all now role (p ∷ perms) =
      ignore (Repository.grant_role_permission db now role p []) >> grant_all now role perms

  -- The loop over the roles of the matrix.
  unfoldable pub seed_roles : Instant → Dict (List Text) → Write S
  seed_roles now [] = skip
  seed_roles now ((role, perms) ∷ matrix) =
      ignore (
        Repository.create_role db
          (record { role = role; description = codes "Role: " ++ role; created_at = zero_time }))
      >> (grant_all now role perms >> seed_roles now matrix)

  -- `count` and `truncate` are the two statements that go past the repository.
  unfoldable pub run_role_permissions : (S → ℕ) → Write S → Instant → Dict (List Text) → Write S
  run_role_permissions count truncate now matrix s =
      ((if ltb 0 (count s)
            then wrapped describe (codes "failed to truncate role_permissions") truncate
            else skip)
          >> seed_roles now matrix)
        s

-- getPermissionMatrix
unfoldable pub permission_matrix : Registry → Dict (List Text)
permission_matrix r =
    (role_super_admin, all_permissions r)
    ∷ (
      codes "admin",
      codes "user.create"
          ∷ codes "user.edit"
          ∷ codes "user.view"
          ∷ codes "role.view"
          ∷ codes "storage.upload"
          ∷ codes "storage.view"
          ∷ [],
    )
    ∷ (codes "user", codes "user.view" ∷ codes "storage.view" ∷ [])
    ∷ []
