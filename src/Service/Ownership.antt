-- ===== src/Service/Ownership.antt =====
-- service.rs: what a service does to its path, and why.
use melibea.Base.{
  ◌≡◌, refl, sym, ap, subst, ◌∙◌, ◌⊎◌, inl, inr, true, false, String, List, [], ◌∷◌, ◌++◌, Option,
  none, some, Result, ok, err, All, All-append, Bool-cases, Result-cases, arith,
}
use melibea.Service.Socket.{
  SocketIdentity, identity_beq, ServiceError, already_running, remove_stale, occupied_path,
  permissions, inspect, nonblocking, bind, Metadata, found, not_found, unreadable, SocketIo,
  SocketEffect, removed, bound, restricted, spawned_broker, spawned_acceptor, read_identity,
  Started, Step, replace_stale, prepare_found, prepare_in, prepare_socket_path, Start, finish_start,
  start_service, stopped, joined_acceptor, sent_shutdown, joined_broker, removed_own, drop_service,
}

module _ (path : String) (io : SocketIo) where
  -- The path is in a directory that is there.
  abbrev pub HasParent : Type 0
  HasParent = (parent : String) × (io.parent ≡ some parent) × (io.is_dir parent ≡ true)

  -- A socket is there, nobody answers on it, and it could be removed.
  abbrev pub IsStale : Type 0
  IsStale =
      (identity : SocketIdentity) × (io.metadata ≡ found true identity)
      × (io.connects ≡ false)
      × (io.remove_file ≡ ok tt)

  abbrev pub IsAbsent : Type 0
  IsAbsent = (reason : String) × (io.metadata ≡ not_found reason)

  abbrev pub IsBound : Type 0
  IsBound = (IsStale ⊎ IsAbsent) × (io.bind ≡ ok tt)

  abbrev pub IsRestricted : Type 0
  IsRestricted = IsBound × (io.set_permissions ≡ ok tt)

  abbrev pub IsServing : SocketIdentity → Type 0
  IsServing identity =
      IsRestricted × (read_identity io.own_metadata ≡ ok identity) × (io.set_nonblocking ≡ ok tt)

  -- What each effect needs.
  abbrev pub Justifies : SocketEffect → Type 0
  Justifies removed = HasParent × IsStale
  Justifies bound = HasParent × IsBound
  Justifies restricted = HasParent × IsRestricted
  Justifies spawned_broker = HasParent × ((identity : SocketIdentity) × IsServing identity)
  Justifies spawned_acceptor = HasParent × ((identity : SocketIdentity) × IsServing identity)

  -- The same for a step, which makes the path free if it succeeds.
  abbrev IsFreed : Step → Type 0
  IsFreed (ok effects) =
      HasParent × ((IsStale × (effects ≡ removed ∷ [])) ⊎ (IsAbsent × (effects ≡ [])))
  IsFreed (err e) = Unit {0}

  removes_stale :
      io.connects ≡ false → io.remove_file ≡ ok tt → replace_stale path io true ≡ ok (removed ∷ [])
  unfolding replace_stale
  removes_stale dead r = ground (arith, dead, r)

  keeps_path : (e : ServiceError) (s : Step) → s ≡ err e → IsFreed s
  keeps_path e (ok es) h = absurd (ground (arith, h))
  keeps_path e (err e') h = tt

  replace_stale-IsFreed :
      (identity : SocketIdentity)
      → HasParent
      → io.metadata ≡ found true identity
      → IsFreed (replace_stale path io true)
  replace_stale-IsFreed identity h e = elim (Bool-cases io.connects) [
    | inl live ↦ keeps_path (already_running path) _ (unfold replace_stale in ground (arith, live))
    | inr dead ↦ elim (Result-cases io.remove_file) [
      | inl (u, r) ↦
          subst IsFreed (sym (removes_stale dead r)) (h, inl ((identity, e, dead, r), refl))
      | inr (x, r) ↦
          keeps_path (remove_stale path x) _ (unfold replace_stale in ground (arith, dead, r))
    ]
  ]

  prepare_found-IsFreed :
      (m : Metadata) → HasParent → io.metadata ≡ m → IsFreed (prepare_found path io m)
  unfolding prepare_found
  prepare_found-IsFreed (not_found reason) h e = (h, inr ((reason, e), refl))
  prepare_found-IsFreed (unreadable reason) h e = tt
  prepare_found-IsFreed (found true identity) h e = replace_stale-IsFreed identity h e
  prepare_found-IsFreed (found false identity) h e =
      keeps_path (occupied_path path) _ (unfold replace_stale in refl)

  prepare_in-IsFreed :
      (parent : Option String) → io.parent ≡ parent → IsFreed (prepare_in path io parent)
  unfolding prepare_in
  prepare_in-IsFreed none e = tt
  prepare_in-IsFreed (some parent) e = elim (Bool-cases (io.is_dir parent)) [
    | inl there ↦ rw there (prepare_found-IsFreed io.metadata (parent, e, there) refl)
    | inr missing ↦ rw missing tt
  ]

  -- A service that is returned is serving.
  abbrev pub IsReturned : Result ServiceError Started → Type 0
  IsReturned (err e) = Unit {0}
  IsReturned (ok s) = (s.path ≡ path) × HasParent × IsServing s.identity

  -- Every effect is justified, and a service that starts is serving.
  abbrev pub IsOrderly : Start → Type 0
  IsOrderly s = All Justifies s.effects × IsReturned s.result

  -- A start that fails, after effects that are justified.
  fails-IsOrderly :
      (s : Start) (effects : List SocketEffect) (e : ServiceError)
      → s ≡ record { effects = effects; result = err e }
      → All Justifies effects
      → IsOrderly s
  fails-IsOrderly s effects e h js = subst IsOrderly (sym h) (js, tt)

  serves :
      (before : List SocketEffect) (identity : SocketIdentity)
      → io.set_permissions ≡ ok tt
      → read_identity io.own_metadata ≡ ok identity
      → io.set_nonblocking ≡ ok tt
      → finish_start path io before ≡ record {
        effects = before ++ restricted ∷ spawned_broker ∷ spawned_acceptor ∷ [];
        result = ok (record { path = path; identity = identity });
      }
  unfolding finish_start
  serves before identity p m n = ground (arith, p, m, n)

  finish_start-IsOrderly :
      (before : List SocketEffect)
      → HasParent
      → IsBound
      → All Justifies before
      → IsOrderly (finish_start path io before)
  unfolding finish_start
  finish_start-IsOrderly before h b js = elim (Result-cases io.set_permissions) [
    | inr (x, p) ↦ fails-IsOrderly _ before (permissions path x) (ground (arith, p)) js
    | inl (u, p) ↦
        let r : IsRestricted = (b, p) in
        let js' : All Justifies (before ++ restricted ∷ []) =
          All-append Justifies before (restricted ∷ []) js ((h, r), tt) in
        elim (Result-cases (read_identity io.own_metadata)) [
          | inr (x, m) ↦
              fails-IsOrderly _ (before ++ restricted ∷ []) (inspect path x) (ground (arith, p, m))
                js'
          | inl (identity, m) ↦ elim (Result-cases io.set_nonblocking) [
            | inr (x, n) ↦
                fails-IsOrderly _ (before ++ restricted ∷ []) (nonblocking x)
                  (ground (arith, p, m, n)) js'
            | inl (v, n) ↦
                let serving : IsServing identity = (r, m, n) in
                subst IsOrderly (sym (serves before identity p m n)) (
                  All-append Justifies before (restricted ∷ spawned_broker ∷ spawned_acceptor ∷ [])
                      js ((h, r), ((h, (identity, serving)), ((h, (identity, serving)), tt))),
                  (refl, h, serving),
                )
          ]
        ]
  ]

  bind-IsOrderly :
      (step : Step)
      → prepare_socket_path path io ≡ step
      → IsFreed step
      → IsOrderly (start_service path io)
  bind-IsOrderly (err e) p free =
      fails-IsOrderly _ [] e (unfold start_service in ground (arith, p)) tt
  bind-IsOrderly (ok before) p (h, free) = elim (Result-cases io.bind) [
    | inr (x, b) ↦
        fails-IsOrderly _ before (bind path x) (unfold start_service in ground (arith, p, b))
          (freed before h free)
    | inl (u, b) ↦ subst IsOrderly (sym (goes_on b)) (
        finish_start-IsOrderly (before ++ bound ∷ []) h (path_free before free, b)
          (All-append Justifies before (bound ∷ []) (freed before h free)
            ((h, (path_free before free, b)), tt)))
  ]
    where
      path_free :
          (before : List SocketEffect)
          → (IsStale × (before ≡ removed ∷ [])) ⊎ (IsAbsent × (before ≡ []))
          → IsStale ⊎ IsAbsent
      path_free before (inl (s, e)) = inl s
      path_free before (inr (s, e)) = inr s

      freed :
          (before : List SocketEffect)
          → HasParent
          → (IsStale × (before ≡ removed ∷ [])) ⊎ (IsAbsent × (before ≡ []))
          → All Justifies before
      freed before h (inl (s, e)) = subst (All Justifies) (sym e) ((h, s), tt)
      freed before h (inr (s, e)) = subst (All Justifies) (sym e) tt

      goes_on :
          io.bind ≡ ok tt → start_service path io ≡ finish_start path io (before ++ bound ∷ [])
      goes_on b = unfold start_service in ground (arith, p, b)

  prepared : IsFreed (prepare_socket_path path io)
  unfolding prepare_socket_path
  prepared = prepare_in-IsFreed io.parent refl

  -- A start touches the path only as it may. It removes it only if it is a socket in a directory that is
  -- there and nobody answers on it; it binds it only once it is free, restricts it only once it is bound,
  -- and starts the threads only once all of this and the rest has succeeded; and a service that is
  -- returned has the path's identity.
  pub start_service-IsOrderly : IsOrderly (start_service path io)
  start_service-IsOrderly = bind-IsOrderly (prepare_socket_path path io) refl prepared

-- A service that was started removes its path, when it is dropped, only if what is there then has the
-- identity that the path had when the service had bound it, and only after its threads have ended.
pub drop_service-own :
    (path : String) (io : SocketIo) (s : Started) (now : Metadata)
    → (start_service path io).result ≡ ok s
    → (drop_service s now ≡ stopped ∷ joined_acceptor ∷ sent_shutdown ∷ joined_broker ∷ [])
      ⊎ ((drop_service s now
            ≡ stopped ∷ joined_acceptor ∷ sent_shutdown ∷ joined_broker ∷ removed_own ∷ [])
          × (s.path ≡ path)
          × (read_identity now ≡ read_identity io.own_metadata))
unfolding drop_service
drop_service-own path io s now h =
    let (same, parent, serving) =
      subst (IsReturned path io) h (start_service-IsOrderly path io).1 in
    elim (Result-cases (read_identity now)) [
      | inr (x, e) ↦ inl (rw e refl)
      | inl (identity, e) ↦ elim (Bool-cases (identity_beq identity s.identity)) [
        | inr other ↦ inl (rw (e, other) refl)
        | inl own ↦ inr (
          rw (e, own) refl,
          same,
          e ∙ ap ok (same_identity identity s.identity own) ∙ sym serving.1,
        )
      ]
    ]
  where
    same_identity : (a b : SocketIdentity) → identity_beq a b ≡ true → a ≡ b
    same_identity a b h = ground arith
