-- ===== src/Auth/Credentials/Laws.antt =====
-- auth-credential.service.ts: what a login that is let in has proved, and that it only reads.
use mathlib.Core.Path.{subst}
use oc.Base.{
  String, Bool, true, false, Option, some, none, List, [], ◌∷◌, ◌≡◌, ◌↔◌, refl, inl, inr, arith,
  eq_iff, ◌==◌, Bool-cases, Option-cases, first, ap, sym, ◌∙◌, map, str_eq_refl,
}
use Prim.Native.String
use oc.Base.Text.{truthy, strip_prefix}
use oc.Base.Text.Prefix.{strip_prefix-append, append_of_strip_prefix}
use oc.Base.Exec.{Result, ok, err, pure, throw, lift, ◌>>=◌}
use oc.Base.Exec.Laws.{bind_returned, finally_returned}
use oc.Contracts.{LoginRequest, LoginResponse, RoleCode, includes_super_admin}
use oc.Database.{SqlDriver}
use oc.Database.Statements.{
  QueryResult, GlobalUserCredentialRow, set_global_principal_login, select_global_user,
}
use oc.Database.Transaction.{transaction_returned}
use oc.Sql.Schema.{Tables, User, Server, Session, cleared}
use oc.Sql.Policy.{Dialect}
use oc.Sql.Execute.{
  execute, credential_rows, visible_users, visible_user_roles, is_login_candidate,
  run_select_global_user,
}
use oc.Sql.Run.{Moment}
use oc.Sql.Driver.{RunsSql, clear_session_context-cleared}
use oc.Auth.Credentials.{
  timing_safe_equal, unique_roles, create_sha256_password_hash, compare_hash, verify_password,
  row_role, grant, find_global_user_rows, judge_hash, judge_row, verify, sha256_prefix,
}
use oc.Auth.Credentials.Rows.{In, In-select, credential_rows_from, filter-login}

equal_of_timing : (a b : String) → timing_safe_equal a b ≡ ok true → a ≡ b
unfolding timing_safe_equal
equal_of_timing a b h = elim (Bool-cases (a == b)) [
  | inl same ↦ (eq_iff a b).0 same
  | inr differs ↦ absurd (ground arith)
]

timing_refl : (a : String) → timing_safe_equal a a ≡ ok true
unfolding timing_safe_equal
timing_refl a = let same = str_eq_refl a in ground arith

module _ (sha256 : String → String) where
  accepted :
      (password stored : String) (o : Option String)
      → strip_prefix sha256_prefix stored ≡ o
      → compare_hash sha256 password o ≡ ok true
      → stored ≡ create_sha256_password_hash sha256 password
  unfolding create_sha256_password_hash
  accepted password stored none found h = absurd (cc)
  accepted password stored (some hash) found h =
      append_of_strip_prefix sha256_prefix stored hash found
      ∙ ap (String.◌++◌ sha256_prefix) (sym (equal_of_timing (sha256 password) hash h))

  -- A password is accepted for a stored hash exactly if that is the hash of the password.
  pub verify_password-hash :
      (password stored : String)
      → (verify_password sha256 password stored ≡ ok true)
        ↔ (stored ≡ create_sha256_password_hash sha256 password)
  unfolding verify_password create_sha256_password_hash
  verify_password-hash password stored = (
    accepted password stored (strip_prefix sha256_prefix stored) refl,
    λ e.
        ap (λ s. compare_hash sha256 password (strip_prefix sha256_prefix s)) e
        ∙ ap (compare_hash sha256 password) (strip_prefix-append sha256_prefix (sha256 password))
        ∙ timing_refl (sha256 password),
  )

-- the session of the look-up
abbrev pub login_session : Session
login_session = record { company_id = none; user_role = none; global_principal_login = true }

abbrev pub login_rows : Dialect → String → Tables → List GlobalUserCredentialRow
login_rows dialect username t =
    credential_rows dialect username (visible_users dialect login_session t)
      (visible_user_roles dialect login_session t) t.roles

login_reads :
    (dialect : Dialect) (username : String) (m m₁ m₂ : Moment) (t : Tables)
    (s s₁ s₂ s₂' s₃ : Server) (o o₁ : QueryResult (Unit {0}))
    (result : QueryResult GlobalUserCredentialRow)
    → s ≡ record { session = cleared; tables = t }
    → execute dialect m (set_global_principal_login true) s ≡ (ok o, s₁)
    → execute dialect m₁ (select_global_user username) s₁ ≡ (ok result, s₂)
    → s₂ ≡ s₂'
    → execute dialect m₂ (set_global_principal_login false) s₂' ≡ (ok o₁, s₃)
    → (result.rows ≡ login_rows dialect username t) × (s₃.tables ≡ t)
unfolding execute run_select_global_user
login_reads dialect username m m₁ m₂ t s s₁ s₂ s₂' s₃ o o₁ result e a b f d =
    let one : s₁ ≡ record { session = login_session; tables = t } =
      sym (ap (λ x. x.1) a)
      ∙ ap
          (λ (x : Server). record {
            session = record x.session { global_principal_login = true };
            tables = x.tables;
          })
          e in
    let c = ap (λ x. execute dialect m₁ (select_global_user username) x) (sym one) ∙ b in
    let three : s₃.tables ≡ s₂'.tables = sym (ap (λ x. x.1.tables) d) in (cc, cc)

module _ (sha256 : String → String) {W : Type 0} {dialect : Dialect} {driver : SqlDriver W}
    (law : RunsSql dialect driver) where
  -- the rows that the look-up returned, and that it changed nothing
  find_effect :
      (username : String) (w w' : W) (rows : List GlobalUserCredentialRow)
      → find_global_user_rows sha256 driver username w ≡ (ok rows, w')
      → (rows ≡ login_rows dialect username (law.durable w))
        × (law.durable w' ≡ law.durable w)
        × ((law.view w').session ≡ cleared)
  unfolding find_global_user_rows pure
  find_effect username w w' rows h =
      let c = transaction_returned driver _ w h in
      let reads = law.begin_reads w c.begun_at c.t c.begun in
      let clears = clear_session_context-cleared law c.begun c.worked_at c.cleared_at c.clears in
      let (published, kept) =
        law.commit_publishes w c.begun_at c.t c.begun c.cleared_at w' c.committed in
      let runs = law.query_runs w c.begun_at c.t c.begun in
      bind_returned _ _ c.worked λ o w₁ raised k₁. finally_returned _ _ k₁ λ w₃ read lowered.
        bind_returned _ _ read λ result w₂ selected k₂.
          bind_returned _ _ lowered λ o₁ w₄ dropped k₃.
            let same : w₂ ≡ w₃ = ap (λ x. x.1) k₂ in
            let last : w₄ ≡ c.worked_at = ap (λ x. x.1) k₃ in
            let answer : result.rows ≡ rows = cc in
            let (found, tables) =
              login_reads dialect username _ _ _ (law.durable w) _ _ _ _ _ _ _ result reads
                (runs (set_global_principal_login true) _ _ o raised)
                (runs (select_global_user username) _ _ result selected) (ap law.view same)
                (runs (set_global_principal_login false) w₃ w₄ o₁ dropped) in
            (
              sym answer ∙ found,
              published
                  ∙ ap (λ (s : Server). s.tables) clears
                  ∙ ap (λ x. (law.view x).tables) (sym last)
                  ∙ tables,
              ap (λ (s : Server). s.session) (kept ∙ clears),
            )

-- what a row that is let in has shown
abbrev pub Shown :
    (String → String)
    → LoginRequest
    → List RoleCode
    → GlobalUserCredentialRow
    → LoginResponse
    → Type 0
Shown sha256 request roles row response =
    (row.password_hash ≡ some (create_sha256_password_hash sha256 request.password))
    × (includes_super_admin roles ≡ true)
    × (response ≡ record { user_id = row.user_id; roles = roles; is_super_admin = true })

module _ (sha256 : String → String) {W : Type 0} where
  judge_hash-eq-ok :
      (request : LoginRequest) (roles : List RoleCode) (user_id hash : String) (w w' : W)
      (response : LoginResponse)
      → judge_hash sha256 request roles user_id hash w ≡ (ok response, w')
      → (hash ≡ create_sha256_password_hash sha256 request.password)
        × (includes_super_admin roles ≡ true)
        × (response ≡ record { user_id = user_id; roles = roles; is_super_admin = true })
        × (w ≡ w')
  unfolding judge_hash pure throw lift ◌>>=◌
  judge_hash-eq-ok request roles user_id hash w w' response h =
      elim (Bool-cases (includes_super_admin roles)) [
        | inl super ↦ go (verify_password sha256 request.password hash) refl super (rw super at h)
        | inr other ↦ absurd (cc (rw other at h))
      ]
    where
      go :
          (r : Result Bool)
          → verify_password sha256 request.password hash ≡ r
          → includes_super_admin roles ≡ true
          → (lift r >>= grant sha256 user_id roles) w ≡ (ok response, w')
          → (hash ≡ create_sha256_password_hash sha256 request.password)
            × (includes_super_admin roles ≡ true)
            × (response ≡ record { user_id = user_id; roles = roles; is_super_admin = true })
            × (w ≡ w')
      go (ok true) e super k =
          ((verify_password-hash sha256 request.password hash).0 e, super, cc, cc)
      go (ok false) e super k = absurd (cc)
      go (err x) e super k = absurd (cc)

  judge_row-eq-ok :
      (request : LoginRequest) (roles : List RoleCode) (rows : List GlobalUserCredentialRow)
      (w w' : W) (response : LoginResponse)
      → judge_row sha256 request roles (first rows) w ≡ (ok response, w')
      → (row : GlobalUserCredentialRow) × In row rows
        × Shown sha256 request roles row response
        × (w ≡ w')
  unfolding judge_row throw
  judge_row-eq-ok request roles [] w w' response h = absurd (cc)
  judge_row-eq-ok request roles (row ∷ rows) w w' response h =
      elim (Option-cases row.password_hash) [
        | inl missing ↦ absurd (cc (rw missing at h))
        | inr (hash, found) ↦ elim (Bool-cases (truthy hash)) [
          | inl filled ↦
              let (same, super, answer, kept) =
                judge_hash-eq-ok request roles row.user_id hash w w' response
                  (rw (found, filled) at h) in
              (row, inl refl, (found ∙ ap (λ s. some s) same, super, answer), kept)
          | inr empty ↦ absurd (cc (rw (found, empty) at h))
        ]
      ]

candidate_flags :
    (dialect : Dialect) (username : String) (u : User)
    → is_login_candidate dialect username u ≡ true
    → ((dialect.lower u.email == dialect.lower username) ≡ true)
      × (u.is_global_admin ≡ true)
      × (u.force_credential_rotation ≡ false)
candidate_flags dialect username u h = ground arith

module _ (sha256 : String → String) {W : Type 0} {dialect : Dialect} {driver : SqlDriver W}
    (law : RunsSql dialect driver) where
  -- On a driver with the laws of RunsSql, a login that is let in named, by its address, a user of
  -- the committed data with the global administrator flag, no company and no pending rotation,
  -- whose stored hash is that of the password given; the answer carries that user's id and
  -- super_admin among the roles, nothing of the committed data has changed, and no session key
  -- stays set.
  pub verify_sound :
      (request : LoginRequest) (w w' : W) (response : LoginResponse)
      → verify sha256 driver request w ≡ (ok response, w')
      → (u : User) × In u (law.durable w).users
        × ((dialect.lower u.email == dialect.lower request.username) ≡ true)
        × (u.is_global_admin ≡ true)
        × (u.force_credential_rotation ≡ false)
        × (u.company_id ≡ none)
        × (u.password_hash ≡ some (create_sha256_password_hash sha256 request.password))
        × (response.user_id ≡ u.id)
        × (includes_super_admin response.roles ≡ true)
        × (response.is_super_admin ≡ true)
        × (law.durable w' ≡ law.durable w)
        × ((law.view w').session ≡ cleared)
  unfolding verify visible_users
  verify_sound request w w' response h = bind_returned _ _ h λ rows v found rest.
      let (same_rows, kept, session) = find_effect sha256 law request.username w v rows found in
      let (row, i, (hash, super, answer), same) =
        judge_row-eq-ok sha256 request (unique_roles (map (row_role sha256) rows)) rows v w'
          response rest in
      let (u, seen, candidate, id, password) =
        credential_rows_from dialect request.username _ _ _ row
          (subst (λ rs. In row rs) same_rows i) in
      let (member, visible) = In-select _ _ u seen in
      let (address, global, settled) = candidate_flags dialect request.username u candidate in
      (
        u,
        member,
        address,
        global,
        settled,
        filter-login dialect u.company_id visible,
        cc,
        cc,
        cc,
        cc,
        ap law.durable (sym same) ∙ kept,
        ap (λ x. (law.view x).session) (sym same) ∙ session,
      )
