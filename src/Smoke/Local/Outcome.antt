-- ===== src/Smoke/Local/Outcome.antt =====
-- The commands that a run gives its runner, and how it ends, on every branch.
use oc.Base.{String, Option, none, some, Bool, true, false, List, [], ◌∷◌}
use oc.Base.{◌++◌, coalesce, ◌≡◌, refl, ap, ◌∙◌}
use Prim.Native.String
use oc.Base.Exec.{Exec, Failure, Result, ok, err, ◌>>=◌, continue}
use oc.Smoke.Queries.{create_database_sql, drop_database_sql}
use oc.Base.{Bool-cases, inl, inr}
use oc.Base.Exec.{pure, throw, other}
use oc.Base.Exec.Laws.{bind_keeps, bind-ok, paired}
use oc.Base.{ℕ, zero, suc, arith}
use oc.Base.Exec.{lift}
use oc.Smoke.Sqlcmd.{
  spawn_runner, settle_child, ChildEnd, failed, closed, run_sql_query, run_sql_file, run_sqlcmd,
  sqlcmd_command, SmokeEnv, SmokePaths, Command,
}
use oc.Smoke.Local.{
  SmokeResult, keeps_database, step_options, run_smoke, with_cleanup_error, is_raised,
  error_message, concluded,
}
use oc.Smoke.Local.Cleanup.{file_end, drop_end, expected, left_by_lem}

is_raised-Error : (e : Failure) → e ≡ other (error_message e) → is_raised e ≡ true
is_raised-Error e h = ap is_raised h

joint_error :
    (e c : Failure)
    → e ≡ other (error_message e)
    → with_cleanup_error (some e) c
      ≡ other
          (String.◌++◌ (error_message e) (String.◌++◌ " Cleanup also failed: " (error_message c)))
joint_error e c h = ap (λ x. with_cleanup_error (some x) c) h

-- What `spawn_runner` throws is an Error.
pub spawn_runner-Error :
    {W : Type 0} (to_text : ℕ → String) (spawn : Command → Exec W ChildEnd)
    → ((c : Command) (w : W) → (end : ChildEnd) × ((spawn c w).0 ≡ ok end))
    → (c : Command) (w : W) (e : Failure) → (spawn_runner to_text spawn c w).0 ≡ err e
    → e ≡ other (error_message e)
unfolding spawn_runner ◌>>=◌
spawn_runner-Error to_text spawn ends c w e h = go (spawn c w).0 (spawn c w).1 (ends c w) h
  where
    go :
        {W : Type 0} (r : Result ChildEnd) (v : W)
        → (end : ChildEnd) × (r ≡ ok end)
        → (continue r (λ end. lift (settle_child to_text c end)) v).0 ≡ err e
        → e ≡ other (error_message e)
    go (ok (failed m)) v _ k = ground arith
    go (ok (closed none)) v _ k = ground arith
    go (ok (closed (some zero))) v _ k = absurd (cc)
    go (ok (closed (some (suc n)))) v _ k = ground arith
    go (err x) v (end, l) k = absurd (cc)

module _ {W : Type 0} (paths : SmokePaths) (runner : Command → Exec W (Unit {0}))
    (log : String → Exec W (Unit {0})) (env : SmokeEnv) (cwd password name : String) where
  abbrev pub create_command : Command
  create_command =
      sqlcmd_command paths (step_options env cwd password)
        (coalesce env.sqlserver_database "master") ("-Q" ∷ create_database_sql name ∷ [])

  abbrev pub file_command : Command
  file_command =
      sqlcmd_command paths (step_options env cwd password) name
        ("-i" ∷ "rls-runtime-smoke.sql" ∷ [])

  abbrev pub drop_command : Command
  drop_command =
      sqlcmd_command paths (step_options env cwd password)
        (coalesce env.sqlserver_database "master") ("-Q" ∷ drop_database_sql name ∷ [])

  -- the commands of a run, the last one first
  abbrev pub commands : Result (Unit {0}) → Bool → List Command
  commands (err _) keep = create_command ∷ []
  commands (ok _) true = file_command ∷ create_command ∷ []
  commands (ok _) false = drop_command ∷ file_command ∷ create_command ∷ []

  abbrev create_act : Exec W (Unit {0})
  create_act = runner create_command

  abbrev file_act : Exec W (Unit {0})
  file_act = runner file_command

  abbrev drop_act : Exec W (Unit {0})
  drop_act = runner drop_command

  module _ (history : W → List Command)
      (recorded : (c : Command) (w : W) → history (runner c w).1 ≡ c ∷ history w)
      (unlogged : (t : String) (w : W) → history (log t w).1 ≡ history w) where
    report_history : (keep : Bool) (w : W) → history (concluded log keep name none w).1 ≡ history w
    unfolding pure
    report_history true w = bind_keeps history (log _) _ (unlogged _) (λ _ _. refl) w
    report_history false w = refl

    concluded_history :
        (keep : Bool) (o : Option Failure) (w : W)
        → history (concluded log keep name o w).1 ≡ history w
    unfolding throw
    concluded_history keep none w = report_history keep w
    concluded_history keep (some e) w = elim (Bool-cases (is_raised e)) [
      | inl k ↦ rw k refl
      | inr k ↦ rw k (report_history keep w)
    ]

    ran :
        (w : W) (r : Result (Unit {0})) (keep : Bool)
        → history (expected create_act file_act drop_act w r keep).1 ≡ commands r keep ++ history w
    ran w (err e) keep = recorded create_command w
    ran w (ok _) true =
        recorded file_command _ ∙ ap (λ h. file_command ∷ h) (recorded create_command w)
    ran w (ok _) false =
        recorded drop_command _
        ∙ ap (λ h. drop_command ∷ h)
            (recorded file_command _ ∙ ap (λ h. file_command ∷ h) (recorded create_command w))

    -- The runner is given the command that creates the database and nothing else if that fails; if it
    -- succeeds, the file, and then, whatever the file gave, the command that drops the database, unless
    -- it is to be kept.
    pub run_smoke-commands :
        (w : W)
        → history (run_smoke paths runner log env cwd password name w).1
          ≡ commands (runner create_command w).0 (keeps_database env) ++ history w
    unfolding run_smoke run_sql_query run_sql_file run_sqlcmd
    run_smoke-commands w =
        ap (λ o. history (concluded log (keeps_database env) name o.0 o.1).1)
          (left_by_lem create_act file_act drop_act w (keeps_database env))
        ∙ concluded_history (keeps_database env) _ _
        ∙ ran w (runner create_command w).0 (keeps_database env)

  module _
      (errors : (c : Command) (w : W) (e : Failure)
        → (runner c w).0 ≡ err e
        → e ≡ other (error_message e))
      (logs : (t : String) (w : W) → (log t w).0 ≡ ok tt) where
    reported :
        (keep : Bool) (w : W)
        → (concluded log keep name none w).0 ≡ ok (record { kept = keep; smoke_database = name })
    unfolding pure
    reported true w = ap (λ o. o.0) (bind-ok (log _) _ (paired (log _ w) (logs _ w)))
    reported false w = refl

    raised :
        (keep : Bool) (e : Failure) (w : W)
        → is_raised e ≡ true
        → (concluded log keep name (some e) w).0 ≡ err e
    unfolding throw
    raised keep e w h = rw h refl

    abbrev pub outcome :
        Result (Unit {0}) → Bool → (file drop : Result (Unit {0})) → Result SmokeResult
    outcome (err e) keep file drop = err e
    outcome (ok _) true (err e) drop = err e
    outcome (ok _) true (ok _) drop = ok (record { kept = true; smoke_database = name })
    outcome (ok _) false (err e) (ok _) = err e
    outcome (ok _) false (err e) (err c) = err (
        other
          (String.◌++◌ (error_message e) (String.◌++◌ " Cleanup also failed: " (error_message c))))
    outcome (ok _) false (ok _) (err c) = err c
    outcome (ok _) false (ok _) (ok _) = ok (record { kept = false; smoke_database = name })

    ended :
        (w : W) (r : Result (Unit {0})) (keep : Bool) (f d : Result (Unit {0}))
        → (runner create_command w).0 ≡ r
        → (file_end create_act file_act drop_act w).0 ≡ f
        → (drop_end create_act file_act drop_act w).0 ≡ d
        → let o = expected create_act file_act drop_act w r keep in
          (concluded log keep name o.0 o.1).0 ≡ outcome r keep f d
    ended w (err e) keep f d h hf hd =
        raised keep e _ (is_raised-Error e (errors create_command w e h))
    ended w (ok _) true (ok _) d h hf hd = rw hf (reported true _)
    ended w (ok _) true (err e) d h hf hd =
        rw hf (raised true e _ (is_raised-Error e (errors file_command _ e hf)))
    ended w (ok _) false (ok _) (ok _) h hf hd = rw (hf, hd) (reported false _)
    ended w (ok _) false (ok _) (err c) h hf hd =
        rw (hf, hd) (raised false c _ (is_raised-Error c (errors drop_command _ c hd)))
    ended w (ok _) false (err e) (ok _) h hf hd =
        rw (hf, hd) (raised false e _ (is_raised-Error e (errors file_command _ e hf)))
    ended w (ok _) false (err e) (err c) h hf hd =
        rw (hf, hd)
          (ap
              (λ x.
                (concluded log false name (some x) (drop_end create_act file_act drop_act w).1).0)
              (joint_error e c (errors file_command _ e hf))
            ∙ raised false (other _) _ refl)

    -- A run succeeds exactly if every command that it gave the runner did. It throws the error of the
    -- first that failed, to which a failure of the clean-up is added, if the runner throws Errors and
    -- the logger returns.
    pub run_smoke-outcome :
        (w : W)
        → let u = (runner create_command w).1 in
          let v = (runner file_command u).1 in
          (run_smoke paths runner log env cwd password name w).0
          ≡ outcome
              (runner create_command w).0
              (keeps_database env)
              (runner file_command u).0
              (runner drop_command v).0
    unfolding run_smoke run_sql_query run_sql_file run_sqlcmd
    run_smoke-outcome w =
        ap (λ o. (concluded log (keeps_database env) name o.0 o.1).0)
          (left_by_lem create_act file_act drop_act w (keeps_database env))
        ∙ ended w (runner create_command w).0 (keeps_database env) _ _ refl refl refl
