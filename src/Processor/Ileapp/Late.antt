-- ===== src/Processor/Ileapp/Late.antt =====
-- A line of iLEAPP that is read after the limit stopped it, in apps/processor/src/utils/ileapp.ts.
use verichron_epoch.Prelude.{ℕ, ◌≡◌, refl, ap, ◌∙◌, Bool-cases, inl, inr, List, ◌∷◌, some, eq_refl}
use verichron_epoch.Processor.Ileapp.{
  completed, running, stopped, is_in_module, IleappModuleRecord, in_module, module_completed,
  overran, IleappProgress, finish, finish_running, end_phase, complete, rest_of, line, stop,
  summary_modules, summary,
}

abbrev stopped_state :
    IleappProgress → IleappModuleRecord → List IleappModuleRecord → ℕ → IleappProgress
stopped_state s r rs now = record s {
  modules = finish r now stopped ∷ rs;
  stopped_by = some (overran r.index r.total r.name r.module_name (rest_of r.index r.total));
}

stop-running :
    (s : IleappProgress) (r : IleappModuleRecord) (rs : List IleappModuleRecord) (now : ℕ)
    → s.phase ≡ in_module
    → s.modules ≡ r ∷ rs
    → r.status ≡ running
    → stop s now ≡ stopped_state s r rs now
unfolding stop end_phase finish_running
stop-running s r rs now inside newest_is runs = simp (inside, newest_is, runs, end_phase) refl

late_line :
    (s : IleappProgress) (r : IleappModuleRecord) (rs : List IleappModuleRecord) (now : ℕ)
    → s.phase ≡ in_module
    → s.modules ≡ r ∷ rs
    → (line s (module_completed r.module_name) now).0
      ≡ record s { modules = finish r now completed ∷ rs }
unfolding line complete
late_line s r rs now inside newest_is = simp (inside, newest_is, eq_refl r.module_name) refl

summary-completed :
    (s : IleappProgress) (r : IleappModuleRecord) (rs : List IleappModuleRecord) (now : ℕ)
    → s.modules ≡ r ∷ rs
    → r.status ≡ completed
    → summary_modules s now ≡ s.modules
unfolding summary_modules finish_running
summary-completed s r rs now newest_is ended = elim (Bool-cases (is_in_module s.phase)) [
  | inl inside ↦ simp (inside, newest_is, ended) refl
  | inr outside ↦ simp outside refl
]

-- Where the limit stops a module that runs, and a line that says that it completed was still to be
-- read, the summary says that the module ran past the limit, and gives its status as completed.
pub stop-line :
    (s : IleappProgress) (r : IleappModuleRecord) (rs : List IleappModuleRecord)
    (stopped_at read_at now limit : ℕ)
    → s.phase ≡ in_module
    → s.modules ≡ r ∷ rs
    → r.status ≡ running
    → let late = (line (stop s stopped_at) (module_completed r.module_name) read_at).0 in
      let said = summary late now limit in
      (said.stopped_by
        ≡ some (overran r.index r.total r.name r.module_name (rest_of r.index r.total)))
      × (said.modules ≡ finish r read_at completed ∷ rs)
unfolding summary finish
stop-line s r rs stopped_at read_at now limit inside newest_is runs =
    let g : IleappProgress = stopped_state s r rs stopped_at in
    let late : IleappProgress = record g { modules = finish r read_at completed ∷ rs } in
    let reached : (line (stop s stopped_at) (module_completed r.module_name) read_at).0 ≡ late =
      ap (λ (x : IleappProgress). (line x (module_completed r.module_name) read_at).0)
        (stop-running s r rs stopped_at inside newest_is runs)
      ∙ late_line g (finish r stopped_at stopped) rs read_at inside refl in
    (
      ap (λ (x : IleappProgress). x.stopped_by) reached,
      ap (λ (x : IleappProgress). summary_modules x now) reached
          ∙ summary-completed late (finish r read_at completed) rs now refl refl,
    )
