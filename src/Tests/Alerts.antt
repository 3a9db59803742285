-- ===== src/Tests/Alerts.antt =====
-- Tests of the alert service, over a board of three alerts in memory.
use vehicle_telematics.Base.{
  String, ◌≡◌, ◌≢◌, refl, sym, ap, ◌∙◌, inl, inr, Bool, true, false, List, [], ◌∷◌, Option, none,
  some, if◌then◌else◌, map, ◌+◌, lookup, insert, str_eq, eq_iff, eq_refl, All, Bool-cases,
  Option-cases, arith,
}
use vehicle_telematics.Models.{Vehicle, Alert}
use vehicle_telematics.Alerts.{
  AlertRepository, AlertService, Stores, UpdateAlertRequest, replace_alert, apply_alert_request,
  change_alerts, update_vehicle_alert, finish_alert, store_alert, update_alert, resolve_found,
  resolve_alert, resolve_each, resolve_all, resolve_alerts_by_vehicle,
}
use vehicle_telematics.Alerts.Statistics.{
  AlertStatistics, bump, count_alert, count_alerts, get_alert_statistics, get_alert_statistics_lem,
  or_zero, tally,
}
use vehicle_telematics.Alerts.Resolved.{
  KeepsAlerts, NeverFails, IsTimed, IsResolved, resolve_alerts_by_vehicle-IsResolved,
  apply_alert_request-resolution,
}
use vehicle_telematics.Tests.Numbers.{fixed}
use vehicle_telematics.Tests.Redis.{van}
use vehicle_telematics.Tests.Fleet.{Fleet, find, replace, fleet_repo, same_id}

-- The alert that stands under each id.
abbrev Board : Type 0
Board = String → Option Alert

abbrev under : String → Option Alert → Option Alert
under id none = none
under id (some x) = some (record x { id = id })

abbrev at : String → Board → Option Alert
at id board = under id (board id)

abbrev pin : String → Alert → Board → Board
pin id x board j = if str_eq id j then some x else board j

abbrev answer : String → Alert → Board → Option Alert → Board × Option Alert
answer id x board none = (board, none)
answer id x board (some _) = (pin id x board, some (record x { id = id }))

abbrev add : (Alert → Bool) → Option Alert → List Alert → List Alert
add p none rest = rest
add p (some x) rest = if p x then x ∷ rest else rest

unfoldable look : (Alert → Bool) → List String → Board → List Alert
look p [] board = []
look p (id ∷ rest) board = add p (at id board) (look p rest board)

abbrev ids : List String
ids = "a1" ∷ "a2" ∷ "a3" ∷ []

abbrev board_repo : AlertRepository Board
board_repo = record {
  new_object_id = λ board. (board, "a4");
  find_by_id = at;
  find_all = λ board. some (look (λ x. true) ids board);
  find_by_vehicle_id = λ id board. some (look (λ x. str_eq x.vehicle_id id) ids board);
  find_by_type = λ type board. some (look (λ x. str_eq x.type type) ids board);
  find_by_severity = λ severity board. some (look (λ x. str_eq x.severity severity) ids board);
  find_unresolved = λ board. some (look (λ x. str_eq x.type "") ids board);
  create = λ x board. (pin x.id x board, some x);
  update = λ id x board. answer id x board (board id);
  delete = λ id board. ((λ j. if str_eq id j then none else board j), true);
  delete_resolved_before = λ t board. (board, true);
}

answer-found :
    (id : String) (x : Alert) (board : Board) (o : Option Alert)
    → board id ≡ o
    → at id (answer id x board o).0 ≡ (answer id x board o).1
answer-found id x board none e = rw e refl
answer-found id x board (some old) e = rw (eq_refl id) refl

answer-others :
    (id : String) (x : Alert) (board : Board) (o : Option Alert) (j : String)
    → id ≢ j
    → at j (answer id x board o).0 ≡ at j board
answer-others id x board none j differ = refl
answer-others id x board (some old) j differ =
    let other : str_eq id j ≡ false = ground (arith, differ, eq_iff id j) in rw other refl

answer-stores :
    (id : String) (old x : Alert) (board : Board) (o : Option Alert)
    → under id o ≡ some old
    → (stored : Alert) × ((answer id x board o).1 ≡ some stored) × (stored.resolved ≡ x.resolved)
answer-stores id old x board none e = absurd (cc)
answer-stores id old x board (some _) e = (record x { id = id }, refl, refl)

look-found :
    (p : Alert → Bool) (ids : List String) (board : Board)
    → All (λ (x : Alert). at x.id board ≡ some x) (look p ids board)
unfolding look
look-found p [] board = tt
look-found p (id ∷ rest) board = elim (Option-cases (board id)) [
  | inl away ↦ rw (away, look) (look-found p rest board)
  | inr (x, e) ↦
      rw (e, look)
        (elim (Bool-cases (p (record x { id = id }))) [
          | inl fits ↦ rw fits (rw e refl, look-found p rest board)
          | inr not_it ↦ rw not_it (look-found p rest board)
        ])
]

of_some : {X : Type 0} {x y : X} → some x ≡ some y → x ≡ y
of_some e = cc

answer-resolved :
    (id : String) (x stored : Alert) (board : Board) (o : Option Alert)
    → (answer id x board o).1 ≡ some stored
    → stored.resolved ≡ x.resolved
answer-resolved id x stored board none e = absurd (cc)
answer-resolved id x stored board (some old) e = ap (λ (y : Alert). y.resolved) (sym (of_some e))

board_repo-NeverFails : NeverFails board_repo
board_repo-NeverFails id old x board e same =
    let (stored, given, is) = answer-stores id old x board (board id) e in (stored, given)

board_repo-KeepsAlerts : KeepsAlerts board_repo same_id
board_repo-KeepsAlerts = record {
  spelling = λ id j board e. rw e refl;
  update-stored = λ id old x stored board e same given. (
    answer-found id x board (board id) refl ∙ given,
    answer-resolved id x stored board (board id) given,
  );
  update-others = λ id x board. answer-others id x board (board id);
  vehicle-found =
      λ id board alerts e. rw (← of_some e) (look-found (λ x. str_eq x.vehicle_id id) ids board);
}

abbrev speeding : Alert
speeding = record {
  id = "a1";
  vehicle_id = "64f0";
  type = "speeding";
  message = "Speed 90";
  severity = "medium";
  timestamp = 5;
  resolved = false;
  resolved_at = none;
}

abbrev stolen : Alert
stolen = record speeding {
  id = "a2";
  type = "fuel_theft";
  severity = "high";
  resolved = true;
  resolved_at = some 6;
}

abbrev later : Alert
later = record speeding { id = "a3" }

abbrev board : Board
board = pin "a1" speeding (pin "a2" stolen (pin "a3" later (λ id. none)))

abbrev copies : Fleet → List (List Alert)
copies = map (λ (v : Vehicle fixed). v.alerts)

abbrev world : Stores Fleet Board
world = record { vehicles = record van { alerts = speeding ∷ [] } ∷ []; alerts = board }

abbrev service : AlertService fixed Fleet Board
service = record { alert_repo = board_repo; vehicle_repo = some fleet_repo }

program : Unit {0}
unfolding replace_alert apply_alert_request lookup insert bump count_alert count_alerts
    get_alert_statistics change_alerts update_vehicle_alert finish_alert store_alert update_alert
    resolve_found resolve_alert resolve_each resolve_all resolve_alerts_by_vehicle find replace look
program = tt

-- The vehicle's copy of the alert follows.
copied :
    copies (resolve_alert service "a1" 9 world).0.vehicles
    ≡ (record speeding { resolved = true; resolved_at = some 9 } ∷ []) ∷ []
unfolding program
copied = refl

read_and_done : (resolve_alerts_by_vehicle service "64f0" 9 world).1 ≡ true
unfolding program
read_and_done = refl

get_alert_statistics_lem_example :
    (stats : AlertStatistics) × (get_alert_statistics service world ≡ some stats)
    × (stats.total ≡ 3)
    × (stats.resolved ≡ 1)
    × (stats.resolved + stats.unresolved ≡ stats.total)
    × ((severity : String)
        → or_zero (lookup severity stats.by_severity)
          ≡ tally (λ x. str_eq x.severity severity) (speeding ∷ stolen ∷ later ∷ []))
    × ((type : String)
        → or_zero (lookup type stats.by_type)
          ≡ tally (λ x. str_eq x.type type) (speeding ∷ stolen ∷ later ∷ []))
unfolding look
get_alert_statistics_lem_example =
    get_alert_statistics_lem service world (speeding ∷ stolen ∷ later ∷ []) refl

resolve_alerts_by_vehicle-IsResolved_example :
    let (w', done) = resolve_alerts_by_vehicle service "64f0" 9 world in
    (done ≡ true)
    × All
        (λ (x : Alert).
          IsResolved service same_id board_repo-KeepsAlerts board_repo-NeverFails w'.alerts x.id)
        (speeding ∷ stolen ∷ later ∷ [])
    × ((j : String)
        → IsResolved service same_id board_repo-KeepsAlerts board_repo-NeverFails world.alerts j
        → IsResolved service same_id board_repo-KeepsAlerts board_repo-NeverFails w'.alerts j)
unfolding look
resolve_alerts_by_vehicle-IsResolved_example =
    resolve_alerts_by_vehicle-IsResolved service same_id board_repo-KeepsAlerts
      board_repo-NeverFails "64f0" 9 world (speeding ∷ stolen ∷ later ∷ []) refl

-- The severity is changed, and the alert is open again.
abbrev milder : UpdateAlertRequest
milder = record { message = ""; severity = "low"; resolved = false }

apply_alert_request-resolution_example :
    let after = apply_alert_request milder 9 stolen in
    IsTimed after
    × (after.resolved ≡ false)
    × (stolen.resolved ≡ true → milder.resolved ≡ true → after.resolved_at ≡ stolen.resolved_at)
    × (milder.resolved ≡ false → after.resolved_at ≡ none)
apply_alert_request-resolution_example = apply_alert_request-resolution milder 9 stolen refl
