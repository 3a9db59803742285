-- ===== src/Vehicles/Caching/Keys.antt =====
-- The keys of the cached lists differ.
use vehicle_telematics.Base.{String, ◌≡◌, ◌≢◌, refl, ◌∙◌, eq_iff}
use Prim.Native.String.{◌++◌ as ◌+++◌}
use text.Mathlib.TextLemmas.{append_assoc, append_inj, append_cancel_left}
use vehicle_telematics.Vehicles.Caching.{status_list, driver_list, dropped_key}

pub dropped_key_inj : (a b : String) → dropped_key a ≡ dropped_key b → a ≡ b
dropped_key_inj a b e = append_cancel_left "fleet:vehicle_list:" a b e

pub status_list_inj : (a b : String) → status_list a ≡ status_list b → a ≡ b
status_list_inj a b e = append_cancel_left "vehicles_by_status_" a b e

pub driver_list_inj : (a b : String) → driver_list a ≡ driver_list b → a ≡ b
driver_list_inj a b e = append_cancel_left "vehicles_by_driver_" a b e

pub status-ne-driver : (a b : String) → status_list a ≢ driver_list b
status-ne-driver a b e =
    let prefixes = (append_inj e refl).0 in
    absurd (let same = (eq_iff "vehicles_by_status_" "vehicles_by_driver_").1 prefixes in cc)

all-ne : (prefix rest : String) → "all_vehicles" ≢ ("v" +++ prefix) +++ rest
all-ne prefix rest e =
    let first =
      (append_inj {s₁ = "a"} {t₁ = "ll_vehicles"} (e ∙ append_assoc "v" prefix rest) refl).0 in
    absurd (let same = (eq_iff "a" "v").1 first in cc)

pub all-ne-status : (a : String) → "all_vehicles" ≢ status_list a
all-ne-status a = all-ne "ehicles_by_status_" a

pub all-ne-driver : (a : String) → "all_vehicles" ≢ driver_list a
all-ne-driver a = all-ne "ehicles_by_driver_" a
