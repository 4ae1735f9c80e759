-- ===== src/Triggers/LeaseTests.antt =====
-- The theorems on leases and on the statuses of triggers, at a concrete collection and trigger.
use testkube.Base.{
  ℕ, String, true, false, ◌≡◌, ◌≢◌, refl, sym, ap, ◌∙◌, Option, none, some, [], ◌∷◌, Map, lookup,
  insert, lookup-insert, arith, eq_iff, eq_refl, ok,
}
use testkube.Triggers.Lease.{
  Lease, Find, found, no_document, Collection, new_lease, new_lease_mongo_id, is_lease_expired,
  look, take_over, try_acquire, lease_status,
}
use testkube.Triggers.Lease.Exclusion.{
  Laws, Holds, try_acquire-Holds, Holds-try_acquire, take_over-race,
}
use testkube.Triggers.Trigger.{TestTrigger, Selector, ConcurrencyPolicy}

-- A collection that is an association list.
abbrev find_of : Option Lease → Find
find_of none = no_document
find_of (some l) = found l

abbrev insert_if_new : String → Lease → Map Lease → Option Lease → Option (Map Lease)
insert_if_new k l s none = some (insert k l s)
insert_if_new k l s (some current) = none

abbrev update_if_there : String → Lease → Map Lease → Option Lease → Option (Map Lease × Lease)
update_if_there k l s none = none
update_if_there k l s (some current) = some (insert k l s, l)

abbrev map_collection : Collection (Map Lease)
map_collection = record {
  find = λ k s. find_of (lookup k s);
  insert = λ k l s. insert_if_new k l s (lookup k s);
  update = λ k l s. update_if_there k l s (lookup k s);
}

found_again : (k : String) (l : Lease) (s : Map Lease) → find_of (lookup k (insert k l s)) ≡ found l
found_again k l s = rw (lookup-insert k k l s, eq_refl k) refl

insert_lem :
    (k : String) (l : Lease) (s s' : Map Lease) (o : Option Lease)
    → insert_if_new k l s o ≡ some s'
    → find_of (lookup k s') ≡ found l
insert_lem k l s s' none h =
    let same : insert k l s ≡ s' = ground arith in
    ap (λ m. find_of (lookup k m)) (sym same) ∙ found_again k l s
insert_lem k l s s' (some current) h = absurd (ground arith)

update_lem :
    (k : String) (l current : Lease) (s : Map Lease) (o : Option Lease)
    → find_of o ≡ found current
    → (s' : Map Lease) × (update_if_there k l s o ≡ some (s', l))
      × (find_of (lookup k s') ≡ found l)
update_lem k l current s none h = absurd (ground arith)
update_lem k l current s (some x) h = (insert k l s, refl, found_again k l s)

map_laws : Laws map_collection
map_laws = record {
  insert_found = λ k l s s' h. insert_lem k l s s' (lookup k s) h;
  update_found = λ k l current s h. update_lem k l current s (lookup k s) h;
}

-- Instance "a" of cluster "c" asks at time 100 and writes the first lease.
abbrev first_store : Map Lease
first_store =
    ("lease-c", record { identifier = "a"; cluster_id = "c"; acquired_at = 100; renewed_at = 100 })
    ∷ []

first_acquired : try_acquire map_collection 60 "a" "c" 100 [] ≡ some (first_store, true)
unfolding try_acquire look new_lease_mongo_id lookup insert new_lease lease_status
first_acquired = refl

first_found : find_of (lookup (new_lease_mongo_id "c") first_store) ≡ found (new_lease "a" "c" 100)
unfolding new_lease_mongo_id lookup new_lease
first_found = refl

first_status : lease_status 60 100 "a" "c" (new_lease "a" "c" 100) ≡ (true, false)
unfolding new_lease lease_status
first_status = refl

first_Holds : Holds map_collection map_laws 60 "c" "a" 100 first_store
first_Holds = (new_lease "a" "c" 100, first_found, first_status)

abbrev a_name : String
a_name = "a"

abbrev b_name : String
b_name = "b"

a_is_not_b : a_name ≢ b_name
a_is_not_b h = absurd (ground (arith, eq_iff "a" "b"))

try_acquire-Holds_example : Holds map_collection map_laws 60 "c" "a" 100 first_store
try_acquire-Holds_example =
    try_acquire-Holds map_collection map_laws 60 "c" "a" 100 [] first_store first_acquired

Holds-try_acquire_example :
    (try_acquire map_collection 60 "a" "c" 100 first_store ≡ some (first_store, true))
    × (try_acquire map_collection 60 "b" "c" 100 first_store ≡ some (first_store, false))
Holds-try_acquire_example =
    Holds-try_acquire map_collection map_laws 60 "c" "a" "b" 100 first_store a_is_not_b first_Holds

-- At time 200 that lease has expired.
first_expired : is_lease_expired 60 200 (new_lease "a" "c" 100) ≡ true
unfolding is_lease_expired new_lease
first_expired = refl

take_over-race_example :
    (t : ℕ) × (u : ℕ) × (s₁ : Map Lease) × (s₂ : Map Lease) × (look map_collection 60 "b" "c" 200
        first_store
      ≡ some (first_store, ok t))
    × (look map_collection 60 "d" "c" 200 first_store ≡ some (first_store, ok u))
    × (take_over map_collection 60 "b" "c" 200 t first_store ≡ some (s₁, true))
    × (take_over map_collection 60 "d" "c" 200 u s₁ ≡ some (s₂, true))
take_over-race_example =
    take_over-race map_collection map_laws 60 "c" "b" "d" 200 first_store (new_lease "a" "c" 100)
      first_found first_expired

-- A trigger, and the map with its status only.
abbrev any_name : Selector String
any_name = record { name = "app"; name_regex = ""; namespace = ""; label_selector = none }

abbrev trigger : TestTrigger String
trigger = record {
  name = "t";
  namespace = "n";
  resource = "deployment";
  event = "modified";
  resource_selector = any_name;
  condition_spec = none;
  probe_spec = none;
  execution = "test";
  test_selector = any_name;
  concurrency_policy = ConcurrencyPolicy.forbid;
}
