-- ===== src/Socket/Manager/Sound.antt =====
-- What every operation of the manager keeps.
use vehicle_telematics.Base.{
  ℕ, ◌+◌, ◌*◌, ◌<◌, String, ◌≡◌, refl, sym, ap, ◌∙◌, ◌≢◌, ◌⊎◌, inl, inr, true, false, List, [], ◌∷◌,
  ◌++◌, Option, none, some, if◌then◌else◌, ltb, ◌==◌, ==_iff, length, lookup, remove, lookup-insert,
  lookup-remove, Distinct, Distinct-insert, Distinct-remove, All, All-map, str_eq, eq_iff, eq_refl,
  arith, Bool-cases, if_either, if_refused, Option-cases,
}
use vehicle_telematics.Base.Float.{Float}
use vehicle_telematics.Base.Time.{Time, second, since}
use vehicle_telematics.Socket.Types.{VehicleFilters, VehicleUpdate}
use vehicle_telematics.Socket.Filters.{should_send_to_client}
use vehicle_telematics.Socket.Manager.{
  Client, Manager, send_buffer, new_manager, write, register_client, close_client, unregister,
  send_to_client, send_to_each, check_each,
}

-- What holds between two steps.
pub record IsSound {F : Float} (m : Manager F) : Type 0 where
  pub distinct : Distinct m.clients
  -- A client of the map stands under its own identifier and is open.
  pub listed :
      (k : String) (p : ℕ)
      → lookup k m.clients ≡ some p
      → (p < m.allocated) × ((m.objects p).id ≡ k) × ((m.objects p).is_closed ≡ false)
  -- A client that is open is in the map.
  pub kept :
      (p : ℕ)
      → p < m.allocated
      → (m.objects p).is_closed ≡ false
      → lookup (m.objects p).id m.clients ≡ some p
  pub told_apart :
      (p q : ℕ) → p < m.allocated → q < m.allocated → (m.objects p).id ≡ (m.objects q).id → p ≡ q

-- The computation does not panic, and its result has the property.
abbrev pub Gives : {F : Float} → Option (Manager F) → (Manager F → Type 0) → Type 0
Gives {F} o P = (m' : Manager F) × (o ≡ some m') × P m'

-- The entries that are left are found after the removal of a key that is not among them.
still_found :
    (k : String) (entries m : List (String × ℕ))
    → lookup k entries ≡ none
    → All (λ (e : String × ℕ). lookup e.0 m ≡ some e.1) entries
    → All (λ (e : String × ℕ). lookup e.0 (remove k m) ≡ some e.1) entries
unfolding lookup
still_found k [] m h f = tt
still_found k ((j, p) ∷ entries) m h f = (
  ground (arith, lookup-remove k j m, eq_iff j k, eq_iff k j, f.0),
  still_found k entries m (ground arith) f.1,
)

module _ {F : Float} where
  pub new-IsSound : IsSound (new_manager {F = F})
  unfolding new_manager lookup
  new-IsSound = record {
    distinct = tt;
    listed = λ k p h. absurd (cc);
    kept = λ p h o. absurd (omega arith);
    told_apart = λ p q h g e. absurd (omega arith);
  }

  -- A write that keeps the identifier of a client and whether it is closed.
  pub write-IsSound :
      (p : ℕ) (c : Client F) (m : Manager F)
      → c.id ≡ (m.objects p).id
      → c.is_closed ≡ (m.objects p).is_closed
      → IsSound m
      → IsSound (write p c m)
  write-IsSound p c m i o v = record {
    distinct = v.distinct;
    listed = λ k q h. let l = v.listed k q h in (l.0, same_id q ∙ l.1, same_closed q ∙ l.2);
    kept = λ q h e. rw (same_id q) (v.kept q h (sym (same_closed q) ∙ e));
    told_apart = λ q r h g e. v.told_apart q r h g (sym (same_id q) ∙ e ∙ same_id r);
  }
    where
      same_id : (q : ℕ) → ((write p c m).objects q).id ≡ (m.objects q).id
      same_id q = elim (Bool-cases (q == p)) [
        | inl e ↦ let is : q ≡ p = (==_iff q p).0 e in rw (e, is) i
        | inr e ↦ rw e
      ]

      same_closed : (q : ℕ) → ((write p c m).objects q).is_closed ≡ (m.objects q).is_closed
      same_closed q = elim (Bool-cases (q == p)) [
        | inl e ↦ let is : q ≡ p = (==_iff q p).0 e in rw (e, is) o
        | inr e ↦ rw e
      ]

  pub register-IsSound :
      (client_id : String) (filters : VehicleFilters) (now : Time) (m : Manager F)
      → ((p : ℕ) → p < m.allocated → (m.objects p).id ≢ client_id)
      → IsSound m
      → IsSound (register_client client_id filters now m)
  unfolding register_client
  register-IsSound client_id filters now m fresh v = record {
    distinct = Distinct-insert client_id m.allocated m.clients v.distinct;
    listed = listed;
    kept = kept;
    told_apart = told_apart;
  }
    where
      after : Manager F
      after = register_client client_id filters now m

      older : (p : ℕ) → p < m.allocated → after.objects p ≡ m.objects p
      older p h = let other : (p == m.allocated) ≡ false = ground arith in rw other

      newest :
          {p : ℕ}
          → p ≡ m.allocated
          → ((after.objects p).id ≡ client_id) × ((after.objects p).is_closed ≡ false)
      newest {p} e =
          let same : (p == m.allocated) ≡ true = (==_iff p m.allocated).1 e in rw same (refl, refl)

      found :
          (k : String)
          → lookup k after.clients
            ≡ (if str_eq client_id k then some m.allocated else lookup k m.clients)
      found k = lookup-insert client_id k m.allocated m.clients

      split : (p : ℕ) → p < m.allocated + 1 → (p ≡ m.allocated) ⊎ (p < m.allocated)
      split p h = ground arith

      new_id :
          (k : String) (p : ℕ)
          → (if str_eq client_id k then some m.allocated else lookup k m.clients) ≡ some p
          → ((p ≡ m.allocated) × (client_id ≡ k)) ⊎ (lookup k m.clients ≡ some p)
      new_id k p e = ground (arith, eq_iff client_id k)

      listed :
          (k : String) (p : ℕ)
          → lookup k after.clients ≡ some p
          → (p < m.allocated + 1)
            × ((after.objects p).id ≡ k)
            × ((after.objects p).is_closed ≡ false)
      listed k p h = elim (new_id k p (sym (found k) ∙ h)) [
        | inl e ↦ (omega (arith, e.0), (newest e.0).0 ∙ e.1, (newest e.0).1)
        | inr old ↦
            let l = v.listed k p old in
            (omega (arith, l.0), rw (older p l.0) l.1, rw (older p l.0) l.2)
      ]

      kept :
          (p : ℕ)
          → p < m.allocated + 1
          → (after.objects p).is_closed ≡ false
          → lookup (after.objects p).id after.clients ≡ some p
      kept p h o = elim (split p h) [
        | inl e ↦ rw ((newest e).0, found client_id, e, eq_refl client_id) refl
        | inr old ↦
            let known = v.kept p old (rw (older p old) at o) in
            let other = fresh p old in
            rw (older p old, found (m.objects p).id)
              (ground (arith, eq_iff client_id (m.objects p).id))
      ]

      told_apart :
          (p q : ℕ)
          → p < m.allocated + 1
          → q < m.allocated + 1
          → (after.objects p).id ≡ (after.objects q).id
          → p ≡ q
      told_apart p q h g e = elim (split p h) [
        | inl a ↦ elim (split q g) [
          | inl b ↦ omega (arith, a, b)
          | inr b ↦
              absurd
                (fresh q b (sym (ap (λ (c : Client F). c.id) (older q b)) ∙ sym e ∙ (newest a).0))
        ]
        | inr a ↦ elim (split q g) [
          | inl b ↦
              absurd (fresh p a (sym (ap (λ (c : Client F). c.id) (older p a)) ∙ e ∙ (newest b).0))
          | inr b ↦ v.told_apart p q a b (
              sym (ap (λ (c : Client F). c.id) (older p a))
              ∙ e
              ∙ ap (λ (c : Client F). c.id) (older q b))
        ]
      ]

  pub close-IsSound :
      (k : String) (p : ℕ) (m : Manager F)
      → lookup k m.clients ≡ some p
      → IsSound m
      → Gives
          (close_client p (record m { clients = remove k m.clients }))
          (λ m'. IsSound m' × (m'.clients ≡ remove k m.clients))
  unfolding close_client
  close-IsSound k p m h v = let l = v.listed k p h in (closed, rw l.2 refl, (sound l.1, refl))
    where
      closed : Manager F
      closed =
          write p (record (m.objects p) { is_closed = true })
            (record m { clients = remove k m.clients })

      same_id : (q : ℕ) → (closed.objects q).id ≡ (m.objects q).id
      same_id q = elim (Bool-cases (q == p)) [
        | inl e ↦ let is : q ≡ p = (==_iff q p).0 e in rw (e, is) refl
        | inr e ↦ rw e
      ]

      others : (q : ℕ) → (q == p) ≡ false → closed.objects q ≡ m.objects q
      others q e = rw e

      still_open :
          (q : ℕ)
          → (closed.objects q).is_closed ≡ false
          → ((q == p) ≡ false) × ((m.objects q).is_closed ≡ false)
      still_open q o = elim (Bool-cases (q == p)) [
        | inl e ↦ absurd (let o' = rw e at o in ground arith)
        | inr e ↦ (e, rw e at o)
      ]

      left :
          (j : String) (q : ℕ)
          → lookup j closed.clients ≡ some q
          → (str_eq k j ≡ false) × (lookup j m.clients ≡ some q)
      left j q g = ground (arith, lookup-remove k j m.clients)

      sound : (m.objects p).id ≡ k → IsSound closed
      sound own = record {
        distinct = Distinct-remove k m.clients v.distinct;
        listed = λ j q g.
            let old = left j q g in
            let l = v.listed j q old.1 in
            let other : (q == p) ≡ false = elim (Bool-cases (q == p)) [
              | inr e ↦ e
              | inl e ↦
                  let k_j : k ≡ j =
                    sym own ∙ ap (λ r. (m.objects r).id) (sym ((==_iff q p).0 e)) ∙ l.1 in
                  absurd (ground (arith, eq_iff k j, old.0))
            ] in
            (l.0, same_id q ∙ l.1, rw (others q other) l.2);
        kept = λ q g o.
            let open_q = still_open q o in
            let known = v.kept q g open_q.1 in
            rw (same_id q, lookup-remove k (m.objects q).id m.clients)
              (elim (Bool-cases (str_eq k (m.objects q).id)) [
                | inr e ↦ rw e known
                | inl e ↦
                    let found : lookup k m.clients ≡ some q =
                      ap (λ r. lookup r m.clients) ((eq_iff k (m.objects q).id).0 e) ∙ known in
                    absurd (ground (arith, found, h, open_q.0))
              ]);
        told_apart = λ q r g f e. v.told_apart q r g f (sym (same_id q) ∙ e ∙ same_id r);
      }

  pub unregister-Gives :
      (p : ℕ) (m : Manager F) → p < m.allocated → IsSound m → Gives (unregister p m) IsSound
  unfolding unregister
  unregister-Gives p m h v = elim (Option-cases (lookup (m.objects p).id m.clients)) [
    | inl gone ↦ rw (gone, unregister) (m, refl, v)
    | inr found ↦
        let (q, e) = found in
        let l = v.listed (m.objects p).id q e in
        let same : q ≡ p = v.told_apart q p l.0 h l.1 in
        let (m', is, g) = close-IsSound (m.objects p).id p m (rw same at e) v in
        rw (e, unregister) (m', is, g.0)
  ]

  send_to_client-Gives :
      (update : VehicleUpdate F) (k : String) (p : ℕ) (m : Manager F)
      → lookup k m.clients ≡ some p
      → IsSound m
      → Gives (send_to_client update p m) (λ m'. IsSound m' × (m'.clients ≡ m.clients))
  unfolding send_to_client
  send_to_client-Gives update k p m h v =
      let l = v.listed k p h in
      let client = m.objects p in
      if_either Steady (should_send_to_client client.filters update)
        (if_refused Steady client.is_closed none l.2 (
          if_either Steady (ltb (length client.send) send_buffer)
            (
              _,
              refl,
              (
                write-IsSound p (record client { send = client.send ++ update ∷ [] }) m refl refl v,
                refl,
              ),
            )
            (_, refl, (write-IsSound p (record client { is_active = false }) m refl refl v, refl))))
        (m, refl, (v, refl))
    where
      Steady : Option (Manager F) → Type 0
      Steady o = Gives {F = F} o (λ m'. IsSound m' × (m'.clients ≡ m.clients))

  pub send_to_each-Gives :
      (update : VehicleUpdate F) (entries : List (String × ℕ)) (m : Manager F)
      → All (λ (e : String × ℕ). lookup e.0 m.clients ≡ some e.1) entries
      → IsSound m
      → Gives (send_to_each update entries m) IsSound
  unfolding send_to_each
  send_to_each-Gives update [] m h v = (m, refl, v)
  send_to_each-Gives update ((k, p) ∷ entries) m h v =
      let (m', e, g) = send_to_client-Gives update k p m h.0 v in
      rw (e, send_to_each)
        (send_to_each-Gives update entries m'
          (All-map entries (λ (x : String × ℕ) f. ap (λ c. lookup x.0 c) g.1 ∙ f) h.1) g.0)

  pub broadcast-IsSound :
      (us : List (VehicleUpdate F)) (m : Manager F)
      → IsSound m
      → IsSound (record m { broadcast = us })
  broadcast-IsSound us m v = record {
    distinct = v.distinct;
    listed = v.listed;
    kept = v.kept;
    told_apart = v.told_apart;
  }

  pub check_each-Gives :
      (now : Time) (entries : List (String × ℕ)) (m : Manager F)
      → Distinct entries
      → All (λ (e : String × ℕ). lookup e.0 m.clients ≡ some e.1) entries
      → IsSound m
      → Gives (check_each now entries m) IsSound
  unfolding check_each
  check_each-Gives now [] m d h v = (m, refl, v)
  check_each-Gives now ((k, p) ∷ entries) m d h v =
      elim (Bool-cases (ltb (90 * second) (since now (m.objects p).last_ping))) [
        | inr fresh ↦ rw fresh (check_each-Gives now entries m d.1 h.1 v)
        | inl late ↦
            let (m', e, g) = close-IsSound k p m h.0 v in
            rw (late, check_each, e)
              (check_each-Gives now entries m' d.1
                (rw g.1 (still_found k entries m.clients d.0 h.1)) g.0)
      ]
