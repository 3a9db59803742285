-- ===== src/Socket/Manager/Stop.antt =====
-- `Stop` closes the clients while the loop may still run.
use vehicle_telematics.Base.{
  ℕ, String, ◌≡◌, refl, sym, ap, ◌∙◌, inl, inr, true, false, List, [], ◌∷◌, none, some, ◌==◌,
  ==_iff, lookup, Distinct, entries_found, All-lookup, All, All-map, eq_iff, arith, Bool-cases,
}
use vehicle_telematics.Base.Float.{Float}
use vehicle_telematics.Socket.Manager.{Manager, write, close_client, unregister}
use vehicle_telematics.Socket.Manager.{close_each, stop}
use vehicle_telematics.Socket.Manager.Safety.{Runs, Runs-IsSound}

module _ {F : Float} where
  -- The client of the entry is open, and stands under its own identifier.
  abbrev IsOpen : Manager F → String × ℕ → Type 0
  IsOpen m e = ((m.objects e.1).id ≡ e.0) × ((m.objects e.1).is_closed ≡ false)

  abbrev closed_at : ℕ → Manager F → Manager F
  closed_at p m = write p (record (m.objects p) { is_closed = true }) m

  closed_at-id : (p q : ℕ) (m : Manager F) → ((closed_at p m).objects q).id ≡ (m.objects q).id
  closed_at-id p q m = elim (Bool-cases (q == p)) [
    | inl e ↦ let is : q ≡ p = (==_iff q p).0 e in rw (e, is) refl
    | inr e ↦ rw e
  ]

  closed_at-closed :
      (p q : ℕ) (m : Manager F)
      → (m.objects q).is_closed ≡ true
      → ((closed_at p m).objects q).is_closed ≡ true
  closed_at-closed p q m h = elim (Bool-cases (q == p)) [ inl e ↦ rw e | inr e ↦ rw e h ]

  closed_at_self : (p : ℕ) (m : Manager F) → ((closed_at p m).objects p).is_closed ≡ true
  closed_at_self p m = let same : (p == p) ≡ true = (==_iff p p).1 refl in rw same

  others-IsOpen :
      (k : String) (p : ℕ) (entries : List (String × ℕ)) (m : Manager F)
      → (m.objects p).id ≡ k
      → lookup k entries ≡ none
      → All (IsOpen m) entries
      → All (IsOpen (closed_at p m)) entries
  unfolding lookup
  others-IsOpen k p [] m own h f = tt
  others-IsOpen k p ((j, q) ∷ entries) m own h f = (
    (closed_at-id p q m ∙ f.0.0, rw other f.0.1),
    others-IsOpen k p entries m own (ground arith) f.1,
  )
    where
      other : (q == p) ≡ false
      other = elim (Bool-cases (q == p)) [
        | inr e ↦ e
        | inl e ↦
            let same : j ≡ k = sym f.0.0 ∙ ap (λ r. (m.objects r).id) ((==_iff q p).0 e) ∙ own in
            absurd (ground (arith, eq_iff j k))
      ]

  close_each-closes :
      (entries : List (String × ℕ)) (m : Manager F)
      → Distinct entries
      → All (IsOpen m) entries
      → (m' : Manager F) × (close_each entries m ≡ some m')
        × (m'.clients ≡ m.clients)
        × ((q : ℕ) → (m'.objects q).id ≡ (m.objects q).id)
        × ((q : ℕ) → (m.objects q).is_closed ≡ true → (m'.objects q).is_closed ≡ true)
        × All (λ (e : String × ℕ). (m'.objects e.1).is_closed ≡ true) entries
  unfolding close_each close_client
  close_each-closes [] m d f = (m, refl, refl, λ q. refl, λ q h. h, tt)
  close_each-closes ((k, p) ∷ entries) m d f =
      let (m', is, c, i, keeps, all) =
        close_each-closes entries (closed_at p m) d.1 (others-IsOpen k p entries m f.0.0 d.0 f.1) in
      (
        m',
        rw (f.0.1, close_each) is,
        c,
        λ q. i q ∙ closed_at-id p q m,
        λ q h. keeps q (closed_at-closed p q m h),
        (keeps p (closed_at_self p m), all),
      )

  -- After `Stop` of a manager in any state that it can come to before, every client that was connected is
  -- closed but still in the map, so that the loop, if it takes the client's departure before it sees
  -- the end, closes the channel again and panics.
  pub stop-panics :
      (m : Manager F) (k : String) (p : ℕ)
      → Runs m
      → lookup k m.clients ≡ some p
      → (m' : Manager F) × (stop m ≡ some m')
        × (lookup k m'.clients ≡ some p)
        × (unregister p m' ≡ none)
  unfolding stop unregister
  stop-panics m k p r h =
      let v = Runs-IsSound m r in
      let open_entries =
        All-map m.clients (λ (e : String × ℕ) f. ((v.listed e.0 e.1 f).1, (v.listed e.0 e.1 f).2))
          (entries_found m.clients v.distinct) in
      let (m', is, c, i, keeps, all) = close_each-closes m.clients m v.distinct open_entries in
      let still : lookup k m'.clients ≡ some p = ap (lookup k) c ∙ h in
      let own : (m'.objects p).id ≡ k = i p ∙ (v.listed k p h).1 in
      let closed : (m'.objects p).is_closed ≡ true =
        All-lookup (λ (e : String × ℕ). (m'.objects e.1).is_closed ≡ true) k p m.clients all h in
      (m', is, still, rw (own, unregister, still) (rw (closed, close_client) refl))
