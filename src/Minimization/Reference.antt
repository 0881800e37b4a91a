-- ===== src/Minimization/Reference.antt =====
-- The registry of minimization.rs against a description of its windows that knows no positions.
use melibea.Base.{
  sym, ap, ◌∙◌, ℕ, ◌≡◌, ◌≢◌, refl, inl, inr, true, false, List, [], ◌∷◌, ◌++◌, some, ok, err, ◌=?◌,
  eq_of_beq, length, get_elem?, Bool-cases, Option-cases, list_eq, arith, length-append,
  list_beq_iff,
}
use melibea.Base.Vec.{remove_at, set_at, set_at_self, get_elem?-set_at, length-remove_at}
use melibea.Base.Vec.Keyed.{
  has, position, position-none, position-some, IsDistinct, replace, without, set_at-replace,
  remove_at-without, replace_absent, without_absent,
}
use melibea.Transition.{WindowId}
use melibea.Minimization.{
  MinimizedWindow, id_of, minimized_beq_iff, minimized_eq, MinimizationEvent, snapshot, minimized,
  metadata_changed, RemovalReason, RegistryChange, duplicate_window, MinimizedRegistry, advance,
  first_duplicate, replace_snapshot, update_at, minimize, change_metadata, remove_window, apply,
}
use melibea.Minimization.Accounts.{
  expected, IsSound, Accounts, first_duplicate-IsDistinct, first_duplicate-some,
  first_duplicate-IsRepeated, same-revision, kept-Accounts, moved-Accounts,
}

snapshot-Accounts :
    (r : MinimizedRegistry) (next : List MinimizedWindow) → Accounts r (snapshot next)
snapshot-Accounts r next = elim (Option-cases (first_duplicate [] next)) [
  | inr (id, dup) ↦ record {
    after = r;
    result = err (duplicate_window id);
    returns = unfold apply in rw (dup, replace_snapshot);
    refused = λ h. (refl, (id, refl, first_duplicate-IsRepeated next id dup));
    accepted = λ d. absurd (first_duplicate-some next id dup d);
    numbered = same-revision r;
  }
  | inl fresh ↦
      let sound : IsDistinct id_of next = first_duplicate-IsDistinct [] next fresh in
      elim (Bool-cases (r.windows =? next)) [
        | inl same ↦
            kept-Accounts r (snapshot next) RegistryChange.unchanged
              (unfold apply in rw (fresh, replace_snapshot) (rw (same, replace_snapshot))) sound
              (eq_of_beq r.windows next same)
        | inr differ ↦
            moved-Accounts r (snapshot next)
              (RegistryChange.snapshot_replaced (length r.windows) (length next))
              (unfold apply in rw (fresh, replace_snapshot) (rw (differ, replace_snapshot))) sound
              (λ e. ground (arith, list_beq_iff r.windows next))
      ]
]

set_at_same :
    (xs ys : List MinimizedWindow) (i : ℕ) (x : MinimizedWindow)
    → get_elem? xs i ≡ some x
    → set_at xs i x ≡ some ys
    → xs ≡ ys
set_at_same xs ys i x h k = cc (set_at_self xs i x h)

update_at-equal :
    (r : MinimizedRegistry) (index : ℕ) (w old : MinimizedWindow)
    → get_elem? r.windows index ≡ some old
    → (old =? w) ≡ true
    → update_at r index w ≡ some (r, ok RegistryChange.unchanged)
unfolding update_at
update_at-equal r index w old stands equal = rw (stands, update_at) (rw (equal, update_at))

update_at-differ :
    (r : MinimizedRegistry) (index : ℕ) (w old : MinimizedWindow) (ws : List MinimizedWindow)
    → get_elem? r.windows index ≡ some old
    → (old =? w) ≡ false
    → set_at r.windows index w ≡ some ws
    → update_at r index w ≡ some (advance r ws, ok (RegistryChange.updated w.id index))
unfolding update_at
update_at-differ r index w old ws stands differ write =
    rw (stands, update_at) (rw (differ, update_at) (rw (write, update_at)))

update-Accounts :
    (r : MinimizedRegistry) (e : MinimizationEvent) (index : ℕ) (w : MinimizedWindow)
    → IsDistinct id_of r.windows
    → IsSound e
    → position id_of w.id r.windows ≡ some index
    → apply r e ≡ update_at r index w
    → expected r.windows e ≡ replace id_of w r.windows
    → Accounts r e
update-Accounts r e index w d sound at call same =
    let (old, stands, key) = position-some id_of w.id index r.windows at in
    let write : set_at r.windows index w ≡ some (replace id_of w r.windows) =
      set_at-replace id_of w index r.windows d at in
    elim (Bool-cases (old =? w)) [
      | inl equal ↦
          let there : get_elem? r.windows index ≡ some w =
            ground (arith, minimized_beq_iff old w) in
          kept-Accounts r e RegistryChange.unchanged
            (call ∙ update_at-equal r index w old stands equal) sound
            (set_at_same r.windows _ index w there write ∙ sym same)
      | inr differ ↦
          moved-Accounts r e (RegistryChange.updated w.id index)
            (call ∙ update_at-differ r index w old _ stands differ (rw same write)) sound
            (λ q. ground (
              arith,
              minimized_beq_iff old w,
              get_elem?-set_at r.windows (replace id_of w r.windows) index w write,
            ))
    ]

position-has :
    (k i : ℕ) (ws : List MinimizedWindow) → position id_of k ws ≡ some i → has id_of k ws ≡ true
position-has k i ws h = ground (arith, position-none id_of k ws)

snoc-ne : (ws : List MinimizedWindow) (w : MinimizedWindow) → ws ++ w ∷ [] ≢ ws
snoc-ne ws w e = omega (arith, ap length e, length-append ws (w ∷ []))

minimize-Accounts :
    (r : MinimizedRegistry) (w : MinimizedWindow)
    → IsDistinct id_of r.windows
    → Accounts r (minimized w)
minimize-Accounts r w d = elim (Option-cases (position id_of w.id r.windows)) [
  | inr (index, at) ↦
      update-Accounts r (minimized w) index w d tt at (unfold apply in rw (at, minimize))
        (rw (position-has w.id index r.windows at))
  | inl absent ↦
      let join : expected r.windows (minimized w) ≡ r.windows ++ w ∷ [] =
        rw ((position-none id_of w.id r.windows).0 absent) in
      moved-Accounts r (minimized w) (RegistryChange.added w.id (length r.windows))
        (rw join (unfold apply in rw (absent, minimize))) tt
        (λ e. snoc-ne r.windows w (sym join ∙ e))
]

metadata-Accounts :
    (r : MinimizedRegistry) (w : MinimizedWindow)
    → IsDistinct id_of r.windows
    → Accounts r (metadata_changed w)
metadata-Accounts r w d = elim (Option-cases (position id_of w.id r.windows)) [
  | inr (index, at) ↦
      update-Accounts r (metadata_changed w) index w d tt at
        (unfold apply in rw (at, change_metadata)) refl
  | inl absent ↦
      kept-Accounts r (metadata_changed w) (RegistryChange.unknown_window w.id)
        (unfold apply in rw (absent, change_metadata)) tt
        (sym (replace_absent id_of w r.windows ((position-none id_of w.id r.windows).0 absent)))
]

remove-Accounts :
    (r : MinimizedRegistry) (e : MinimizationEvent) (id : WindowId) (reason : RemovalReason)
    → IsDistinct id_of r.windows
    → IsSound e
    → apply r e ≡ remove_window r id reason
    → expected r.windows e ≡ without id_of id r.windows
    → Accounts r e
remove-Accounts r e id reason d sound call same =
    elim (Option-cases (position id_of id r.windows)) [
      | inl absent ↦
          kept-Accounts r e (RegistryChange.unknown_window id)
            (call ∙ unfold remove_window in rw (absent, remove_window)) sound
            (sym (without_absent id_of id r.windows ((position-none id_of id r.windows).0 absent))
              ∙ sym same)
      | inr (index, at) ↦
          let (x, stands, key) = position-some id_of id index r.windows at in
          let cut : remove_at r.windows index ≡ some (x, without id_of id r.windows) =
            remove_at-without id_of id index x r.windows d at stands in
          moved-Accounts r e (RegistryChange.removed id index reason)
            (call
              ∙ rw same (unfold remove_window in rw (at, remove_window) (rw (cut, remove_window))))
            sound
            (λ q. omega (
              arith,
              length-remove_at r.windows (without id_of id r.windows) index x cut,
              ap length (sym same ∙ q),
            ))
    ]

-- On a registry with no id twice `apply` accounts for every event: it does not panic; a snapshot that
-- names a window twice changes nothing and the error names a window that it has at least twice; any
-- other event leaves the windows that its kind says, in their order; and the revision is one higher, up to the largest 64-bit
-- value, exactly if the windows differ from before.
pub apply-Accounts :
    (r : MinimizedRegistry) (e : MinimizationEvent) → IsDistinct id_of r.windows → Accounts r e
apply-Accounts r (snapshot next) d = snapshot-Accounts r next
apply-Accounts r (minimized w) d = minimize-Accounts r w d
apply-Accounts r (metadata_changed w) d = metadata-Accounts r w d
apply-Accounts r (MinimizationEvent.restored id) d =
    remove-Accounts r _ id RemovalReason.restored d tt (unfold apply in refl) refl
apply-Accounts r (MinimizationEvent.closed id) d =
    remove-Accounts r _ id RemovalReason.closed d tt (unfold apply in refl) refl
