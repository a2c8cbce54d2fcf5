-- ===== src/ConfigSchema/Accepted.antt =====
-- What a config that the schema accepts is: its desugaring succeeds and is accepted as well.
use launch_pad.Prelude.{
  ok, ◌==◌, ℕ, String, false, not, ◌&&◌, ◌||◌, Option, none, some, List, [], ◌∷◌, ◌++◌, map, ◌≡◌,
  refl, ap, ◌↔◌, ◌⊎◌, inl, inr, arith, Distinct, All, All-append, All-weaken, length, length-append,
}
use launch_pad.Config.{ServiceDecl, DatabaseDecl, LaunchPadConfig}
use launch_pad.Cron.{UtcFields}
use launch_pad.ConfigSchema.Issues.{each_from}
use launch_pad.Prelude.Entries.{All-map}
use launch_pad.ConfigSchema.NewNames.{
  repeated_names-AreNew, AreNew-repeated_names, AreNew-append, seen_after-append, AreNew-Distinct,
}
use launch_pad.ConfigSchema.Managed.{database_service-silent, database_services-eq}
use launch_pad.Deploy.Made.{IsValid}
use launch_pad.ConfigSchema.Issues.{field, Issue, each, if_given, in_range, each_from}
use launch_pad.ConfigSchema.Issues.Silence.{
  append-silent, silent-append, under-silent, silent-under, issue_if-silent, silent-issue_if,
  in_range-silent, joined-silent, silent-joined, each-silent, silent-each, if_given-silent,
}
use launch_pad.ConfigSchema.Services.{
  is_given, service_fields, service_rules, service_issues, ingress_issues, database_issues,
}
use launch_pad.ConfigSchema.{
  listed, seen_after, service_names, database_service_names, name_issues, config_rules,
  config_fields, config_issues, database_service, expanded, expand_databases,
  expand_database_services,
}

both_given :
    (d : Option String) (p : Option ℕ)
    → (is_given d && not (is_given p) || not (is_given d) && is_given p) ≡ false
    → (d ≡ none) ↔ (p ≡ none)
both_given none none h = (λ _. refl, λ _. refl)
both_given none (some p) h = cc
both_given (some d) none h = cc
both_given (some d) (some p) h = (λ e. cc, λ e. cc)

port_silent : (s : ServiceDecl) → service_fields s ≡ [] → if_given (in_range 1 65535) s.port ≡ []
unfolding service_fields
port_silent s h =
    let (_, (_, (_, (_, (_, (_, (_, (port, _)))))))) = joined-silent _ h in
    under-silent (field "port") _ port

append-is_none :
    {A : Type 0} (xs ys : List A) → (length xs == 0) ≡ false → (length (xs ++ ys) == 0) ≡ false
append-is_none xs ys h = ground (arith, length-append xs ys)

silent_none : {A : Type 0} (issues : A → List Issue) → if_given (each issues) (some []) ≡ []
unfolding if_given each each_from
silent_none issues = refl

database_names :
    (dbs : List DatabaseDecl)
    → map (λ s. s.name) (map database_service dbs) ≡ map (λ db. db.name) dbs
unfolding database_service
database_names [] = refl
database_names (db ∷ dbs) = ap (λ ns. db.name ∷ ns) (database_names dbs)

all_names :
    (services : List ServiceDecl) (dbs : List DatabaseDecl)
    → map (λ s. s.name) (services ++ map database_service dbs)
      ≡ map (λ s. s.name) services ++ map (λ db. db.name) dbs
all_names [] dbs = database_names dbs
all_names (s ∷ services) dbs = ap (λ ns. s.name ∷ ns) (all_names services dbs)

expanded_names :
    (config : LaunchPadConfig)
    → name_issues config ≡ []
    → name_issues (expanded config (map database_service (listed config.database))) ≡ []
unfolding name_issues expanded database_service_names seen_after
expanded_names config h =
    let (service, (database, (job, _))) = joined-silent _ h in
    let names = all_names config.service (listed config.database) in
    let new =
      AreNew-append [] (service_names config) (map (λ db. db.name) (listed config.database))
        (repeated_names-AreNew _ _ 0 _ _ service) (repeated_names-AreNew _ _ 0 _ _ database) in
    silent-joined _ (
      AreNew-repeated_names _ _ 0 [] _ (rw names new),
      (
        AreNew-repeated_names _ _ 0 _ [] tt,
        (
          AreNew-repeated_names _ _ 0 _ _ (
              rw
                (
                  names,
                  seen_after-append [] (service_names config)
                      (map (λ db. db.name) (listed config.database)),
                )
                (repeated_names-AreNew _ _ 0 _ _ job)),
          tt,
        ),
      ),
    )

module _ (utc : ℕ → UtcFields) (now : ℕ) where
  IsValid-ingress :
      (s : ServiceDecl)
      → ingress_issues s ≡ []
      → if_given (in_range 1 65535) s.port ≡ []
      → IsValid s
  unfolding ingress_issues
  IsValid-ingress s h k =
      let one = issue_if-silent _ _ _ (append-silent _ _ h).0 in
      record {
        both = both_given s.domain s.port one;
        positive =
            λ port e. in_range-silent 1 65535 port (if_given-silent (in_range 1 65535) s.port k e);
      }

  service_issues-IsValid : (s : ServiceDecl) → service_issues utc now s ≡ [] → IsValid s
  unfolding service_issues service_rules
  service_issues-IsValid s h =
      let (fields, rules) = append-silent (service_fields s) (service_rules utc now s) h in
      let (_, (ingress, _)) = joined-silent _ rules in
      IsValid-ingress s ingress (port_silent s fields)

  listed-silent :
      (dbs : Option (List DatabaseDecl))
      → if_given (each (database_issues utc now)) dbs ≡ []
      → All (λ db. database_issues utc now db ≡ []) (listed dbs)
  unfolding if_given
  listed-silent none h = tt
  listed-silent (some dbs) h = each-silent (database_issues utc now) dbs h

  expand_databases-none :
      (config : LaunchPadConfig) → expand_databases utc now config [] ≡ ok config
  unfolding expand_databases
  expand_databases-none config = refl

  expand_databases-eq :
      (config : LaunchPadConfig) (dbs : List DatabaseDecl)
      → All (λ db. database_issues utc now db ≡ []) dbs
      → (dbs ≡ [])
        ⊎ (expand_databases utc now config dbs ≡ ok (expanded config (map database_service dbs)))
  unfolding expand_databases
  expand_databases-eq config [] h = inl refl
  expand_databases-eq config (db ∷ dbs) h =
      inr (rw (database_services-eq utc now (db ∷ dbs) h) refl)

  -- What the theorem says of the desugared config.
  pub record IsReady (config : LaunchPadConfig) : Type 0 where
    pub valid : All IsValid config.service
    pub distinct : Distinct (service_names config)
    pub accepted : config_issues utc now config ≡ []

  accepted-IsReady : (config : LaunchPadConfig) → config_issues utc now config ≡ [] → IsReady config
  unfolding config_issues config_fields config_rules name_issues
  accepted-IsReady config h =
      let (fields, rules) = append-silent (config_fields utc now config) (config_rules config) h in
      let (_, (_, (_, (_, (services, _))))) = joined-silent _ fields in
      let (_, (_, (_, (names, _)))) = joined-silent _ rules in
      let (service, _) = joined-silent _ names in
      record {
        valid =
            All-weaken service_issues-IsValid config.service
              (each-silent _ _ (under-silent _ _ services));
        distinct = AreNew-Distinct [] _ (repeated_names-AreNew _ _ 0 [] _ service);
        accepted = h;
      }

  expanded-accepted :
      (config : LaunchPadConfig)
      → config_issues utc now config ≡ []
      → All (λ db. database_issues utc now db ≡ []) (listed config.database)
      → config_issues utc now (expanded config (map database_service (listed config.database))) ≡ []
  unfolding config_issues config_fields config_rules name_issues expanded
  expanded-accepted config h dbs =
      let (fields, rules) = append-silent (config_fields utc now config) (config_rules config) h in
      let (project, (component, (pattern, (some_service, (services, (_, (jobs, _))))))) =
        joined-silent _ fields in
      let (rule1, (rule2, (rule3, (names, _)))) = joined-silent _ rules in
      silent-append
        (silent-joined _ (
          project,
          (
            component,
            (
              pattern,
              (
                silent-under _ (
                    silent-issue_if _ _ (
                      append-is_none config.service _
                        (issue_if-silent _ _ _ (under-silent _ _ some_service)))),
                (
                  silent-under _ (
                      silent-each _ _ (
                        All-append _ config.service _ (each-silent _ _ (under-silent _ _ services))
                          (All-map database_service _ (listed config.database)
                            (All-weaken (database_service-silent utc now) _ dbs)))),
                  (silent-under _ (silent_none (database_issues utc now)), (jobs, tt)),
                ),
              ),
            ),
          ),
        ))
        (silent-joined _ (rule1, (rule2, (rule3, (expanded_names config names, tt)))))

  databases-silent :
      (config : LaunchPadConfig)
      → config_issues utc now config ≡ []
      → All (λ db. database_issues utc now db ≡ []) (listed config.database)
  unfolding config_issues config_fields
  databases-silent config h =
      let (fields, rules) = append-silent (config_fields utc now config) (config_rules config) h in
      let (_, (_, (_, (_, (_, (databases, _)))))) = joined-silent _ fields in
      listed-silent config.database (under-silent _ _ databases)

  -- A config without an issue desugars, and what it desugars to has none either, no name twice, and
  -- in each service a domain and a port or neither, with ports from 1 on.
  pub expand_database_services-IsReady :
      (config : LaunchPadConfig)
      → config_issues utc now config ≡ []
      → (ready : LaunchPadConfig) × (expand_database_services utc now config ≡ ok ready)
        × IsReady ready
  unfolding expand_database_services
  expand_database_services-IsReady config h =
      let dbs = databases-silent config h in
      elim (expand_databases-eq config (listed config.database) dbs) [
        | inl none_listed ↦ (
          config,
          (let e = expand_databases-none config in rw none_listed e),
          accepted-IsReady config h,
        )
        | inr e ↦ (_, e, accepted-IsReady _ (expanded-accepted config h dbs))
      ]
