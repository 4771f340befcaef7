-- ===== src/Tests/Rules.antt =====
-- Runs of the managers, `RulesApp` and the controller, on a table in memory.
use mathlib.Core.Path.{subst}
use distributed_apps_platfor.Base.{
  ◌≡◌, refl, sym, arith, ℕ, String, Bool, true, false, not, List, [], ◌∷◌, Option, none, some, Dict,
  lookup, insert, has_key, get_or, contains, values, Value, null, text, int, bool, pos, target,
  Result, ok, err, Error, assertion_error, if◌then◌else◌, ◌==◌, string_eq, option_eq,
}
use distributed_apps_platfor.Traffic.Rule.{Rule, schema, is_tcp, is_udp, is_http, enabled}
use distributed_apps_platfor.Traffic.Task
use distributed_apps_platfor.Traffic.Task.{
  Task, Connection, client, create_task, is_running, with_stopped,
}
use distributed_apps_platfor.Traffic.Manager.{
  ClientKey, client_key, client_manager, add_task, new_task,
}
use distributed_apps_platfor.Apps.Rules.{
  Casts, converted, RulesApp, get, add, add_rules, delete_rules, enable, disable, close,
  load_from_db, cache,
}
use distributed_apps_platfor.Apps.Rules.Synced.{IsSynced, calls-IsSynced}
use distributed_apps_platfor.Apps.Rules.Rows.{add-row}
use distributed_apps_platfor.Apps.Rules.Load.{load_from_db-get}
use distributed_apps_platfor.Apps.Controller.{
  Controller, register_rule, start_rules, stop_rules, unregister_traffic,
}
use distributed_apps_platfor.Apps.Controller.Consistent.{Consistent, is_active}
use distributed_apps_platfor.Apps.Controller.Lifecycle.{Step, here, after, Reach-Consistent}
use distributed_apps_platfor.Apps.Controller.Resume.{AllNull}
use distributed_apps_platfor.Sql.{Table}
use distributed_apps_platfor.Tests.Memory.{memory}
use distributed_apps_platfor.Tests.Traffic.{web, task, link}

abbrev pub sql : Table
sql = memory "ruleid"

abbrev nameless : Rule
nameless = ("ruleid", text "") ∷ []

web-key : client_manager.key web ≡ ok (some "r-1")
unfolding client_manager client_key lookup
web-key = refl

web-valid : client_manager.valid (some "r-1") ≡ true
unfolding client_manager
web-valid = refl

web-new : new_task client_manager web ≡ ok (with_stopped false task link)
unfolding client_manager new_task lookup create_task is_tcp is_udp is_http enabled Task.start
web-new = refl

abbrev no_tasks : Dict ClientKey Task
no_tasks = []

abbrev web_id : ClientKey
web_id = some "r-1"

nameless-raises : (add_task client_manager nameless []).0 ≡ err assertion_error
unfolding client_manager client_key add_task lookup
nameless-raises = refl

abbrev tasks : Dict ClientKey Task
tasks = (some "r-1", task) ∷ []

task-there : lookup (some "r-1") tasks ≡ some task
unfolding lookup
task-there = refl

abbrev web-row : String → Value
web-row f = get_or (lookup f web) null

abbrev app : RulesApp sql
app = record { rules = (some "r-1", web) ∷ []; db = ("r-1", web-row) ∷ [] }

abbrev empty : RulesApp sql
empty = record { rules = []; db = [] }

app-IsSynced : IsSynced sql app
unfolding lookup
app-IsSynced = record {
  at = λ j n h. ground (arith, h, string_eq.same_iff "r-1" j, string_eq.same_iff j "r-1");
}

empty-IsSynced : IsSynced sql empty
unfolding lookup
empty-IsSynced = record { at = λ j n h. ground (arith, h) }

web-added : (add_rules sql (web ∷ []) empty).0 ≡ ok tt
unfolding add_rules distributed_apps_platfor.Base.Exec.for_each add cache lookup
web-added = refl

calls-IsSynced_example :
    IsSynced sql (add sql web true app).1
    × IsSynced sql (delete_rules sql ("r-1" ∷ []) app)
    × IsSynced sql (enable sql "r-1" app)
    × IsSynced sql (disable sql "r-1" app)
    × IsSynced sql (close sql app)
calls-IsSynced_example = calls-IsSynced sql web ("r-1" ∷ []) "r-1" app app-IsSynced

web-id : lookup "ruleid" web ≡ some (text "r-1")
unfolding lookup
web-id = refl

web-port : has_key "port" web ≡ true
unfolding lookup
web-port = refl

port-schema : contains "port" schema ≡ true
unfolding schema
port-schema = refl

add-row_example :
    let (result, app') = add sql web true empty in
    (result ≡ ok tt)
    × (get sql "r-1" app' ≡ some web)
    × (sql.cell app'.db "r-1" "port" ≡ sql.stored "port" (get_or (lookup "port" web) null))
    × ((j g : String)
        → ("r-1" == j) ≡ false
        → (g == sql.primary) ≡ false
        → sql.cell app'.db j g ≡ sql.cell empty.db j g)
add-row_example = add-row sql web "r-1" "port" empty web-id refl port-schema web-port refl

app-web : lookup (some "r-1") app.rules ≡ some web
unfolding lookup
app-web = refl

abbrev as_is : Casts
as_is = record { to_int = λ v. none; to_float = λ v. none; to_str = λ v. v }

load_from_db-get_example :
    (r : Rule) × (get sql "r-1" (load_from_db sql as_is app.db) ≡ some r)
    × (lookup "port" r ≡ (
        if contains "port" schema
        then some (converted as_is "port" (sql.cell app.db "r-1" "port"))
        else none))
load_from_db-get_example = load_from_db-get sql as_is app.db refl (λ s. refl) "r-1" "port" refl

abbrev link_started : Connection
link_started = record link { stopped = false }

abbrev pub node : Controller sql
node = record {
  app = app;
  clients = (some "r-1", with_stopped false task link) ∷ [];
  servers = [];
  ep_map = [];
  host = "h1";
  tools = [];
  calls = [];
}

only-entry :
    {V : Type 0} (j k : String) (v w : V)
    → lookup (some k) ((some j, v) ∷ []) ≡ some w
    → (j ≡ k) × (v ≡ w)
unfolding lookup
only-entry j k v w h = ground (arith, h, string_eq.same_iff j k)

web-internal : not link_started.stopped ≡ is_active web
unfolding lookup
web-internal = refl

pub node-Consistent : Consistent sql node
node-Consistent = record {
  keyed = λ k r h.
      let (e, f) = only-entry "r-1" k web r h in
      subst (λ x. lookup "ruleid" x ≡ some (text k)) f
        (subst (λ x. lookup "ruleid" web ≡ some (text x)) e web-id);
  agrees = λ k r t c h x q s.
      let (_, f) = only-entry "r-1" k web r h in
      let (_, g) = only-entry "r-1" k (with_stopped false task link) t q in
      let there : some link_started ≡ some c =
        subst (λ (y : Task). y.connection ≡ some c) (sym g) s in
      subst (λ x. not c.stopped ≡ is_active x) f
        (subst (λ (y : Connection). not y.stopped ≡ is_active web) (same there) web-internal);
}
  where
    same : {a b : Connection} → some a ≡ some b → a ≡ b
    same h = cc

abbrev mail : Rule
mail = insert "ruleid" (text "r-2") web

mail-id : lookup "ruleid" mail ≡ some (text "r-2")
unfolding lookup insert
mail-id = refl

mail-free : lookup (some "r-2") node.clients ≡ none
unfolding lookup
mail-free = refl

-- the rule is registered, stopped, started again and unregistered
abbrev over : Controller sql
over = unregister_traffic sql ("r-1" ∷ []) (
    start_rules sql ("r-2" ∷ [])
      (stop_rules sql ("r-2" ∷ "r-1" ∷ []) (register_rule sql mail node).1))

Reach-Consistent_example : Consistent sql over
Reach-Consistent_example = Reach-Consistent sql node-Consistent (
    after
      (after
        (after (after here (Step.register mail "r-2" mail-id mail-free))
          (Step.stopped ("r-2" ∷ "r-1" ∷ [])))
        (Step.started ("r-2" ∷ [])))
      (Step.unregister ("r-1" ∷ [])))

node-client : lookup (some "r-1") node.clients ≡ some (with_stopped false task link)
unfolding lookup
node-client = refl

abbrev restarted : Controller sql
restarted = record {
  app = record { rules = (some "r-1", insert "tool" null web) ∷ []; db = ("r-1", web-row) ∷ [] };
  clients = [];
  servers = [];
  ep_map = [];
  host = "h1";
  tools = [];
  calls = [];
}

restarted-AllNull : AllNull sql (values restarted.app.rules)
unfolding lookup insert
restarted-AllNull = (refl, tt)

no_tools : lookup none restarted.tools ≡ none
unfolding lookup
no_tools = refl
