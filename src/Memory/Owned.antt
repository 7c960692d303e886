-- ===== src/Memory/Owned.antt =====
-- Adding, assigning and freeing a box keep its owner the only one.
use emacs_module_rs.Base.{◌≡◌, ◌≢◌, sym, ◌∙◌, Option, none, some, arith, inl, inr}
use emacs_module_rs.Machine.{Address}
use emacs_module_rs.Memory.{TypeId, ObjectId, Embedded, Live, live, Heap, write}
use emacs_module_rs.Memory.Owners.{
  Owns, Owned, added, removed, Owns-added, Owns-made, Owns-removed, Owns-kept, write-at,
  write-other, write-cases,
}

module _ {C : Type 0} {fin : TypeId → Address} {users : ObjectId → Option Embedded} {heap : Heap C}
    (owned : Owned fin users heap) where
  free-ne :
      (p at : Address) (object : ObjectId) (ty : TypeId)
      → heap p ≡ none
      → Owns fin users object ty at
      → p ≢ at
  free-ne p at object ty free own e =
      let (b, held, _) = owned.box_of object ty at own in ground (arith, e, held, free)

  pub Owned-add :
      (made : ObjectId) (ty : TypeId) (p : Address) (c : C)
      → users made ≡ none
      → heap p ≡ none
      → Owned fin (added made (some (fin ty), p) users) (write heap p (some (live ty c)))
  Owned-add made ty p c new free = record {
    box_of = λ object ty' at own. elim (Owns-added fin users made object ty ty' p at own) [
      | inl (_, ep, et) ↦ (live ty c, rw (← ep) (write-at heap p p (some (live ty c))), et)
      | inr old ↦
          let (b, held, e) = owned.box_of object ty' at old in
          (b, write-other heap p at _ (free-ne p at object ty' free old) ∙ held, e)
    ];
    one_owner = λ object other ty1 ty2 at own own'.
        elim (Owns-added fin users made object ty ty1 p at own) [
          | inl (em, ep, _) ↦ elim (Owns-added fin users made other ty ty2 p at own') [
            | inl (em', _, _) ↦ sym em ∙ em'
            | inr old' ↦ absurd (free-ne p at other ty2 free old' ep)
          ]
          | inr old ↦ elim (Owns-added fin users made other ty ty2 p at own') [
            | inl (_, ep, _) ↦ absurd (free-ne p at object ty1 free old ep)
            | inr old' ↦ owned.one_owner object other ty1 ty2 at old old'
          ]
        ];
    owner_of = λ at b held. elim (write-cases heap p at (some (live ty c))) [
      | inl (ep, e) ↦ (made, ground (arith, ep, e, held))
      | inr (ne, e) ↦
          let (object, own) = owned.owner_of at b (sym e ∙ held) in
          (object, Owns-made fin users made object (some (fin ty), p) b.type_id at new own)
    ];
  }

  pub Owned-assign :
      (p : Address) (b : Live C) (c : C)
      → heap p ≡ some b
      → Owned fin users (write heap p (some (live b.type_id c)))
  Owned-assign p b c held = record {
    box_of = λ object ty at own.
        let (b', held', e') = owned.box_of object ty at own in
        elim (write-cases heap p at (some (live b.type_id c))) [
          | inl (ep, e) ↦ (live b.type_id c, e, ground (arith, ep, held, held', e'))
          | inr (ne, e) ↦ (b', e ∙ held', e')
        ];
    one_owner = owned.one_owner;
    owner_of = λ at b' held'. elim (write-cases heap p at (some (live b.type_id c))) [
      | inl (ep, e) ↦
          let (object, own) = owned.owner_of p b held in (object, ground (arith, ep, e, held', own))
      | inr (ne, e) ↦ owned.owner_of at b' (sym e ∙ held')
    ];
  }

  pub Owned-free :
      (gone : ObjectId) (ty : TypeId) (p : Address)
      → Owns fin users gone ty p
      → Owned fin (removed gone users) (write heap p none)
  Owned-free gone ty p own = record {
    box_of = λ object ty' at own'.
        let (ne, old) = Owns-removed fin users gone object ty' at own' in
        let (b, held, e) = owned.box_of object ty' at old in
        elim (write-cases heap p at none) [
          | inl (ep, _) ↦ absurd (ne (owned.one_owner gone object ty ty' at (rw (← ep) own) old))
          | inr (_, keep) ↦ (b, keep ∙ held, e)
        ];
    one_owner = λ object other ty1 ty2 at own1 own2.
        owned.one_owner object other ty1 ty2 at (Owns-removed fin users gone object ty1 at own1).1
          (Owns-removed fin users gone other ty2 at own2).1;
    owner_of = λ at b held. elim (write-cases heap p at none) [
      | inl (_, e) ↦ absurd (ground (arith, e, held))
      | inr (ne, e) ↦
          let (object, old) = owned.owner_of at b (sym e ∙ held) in
          (
            object,
            Owns-kept fin users gone object b.type_id at (λ eq. ne (ground (arith, own, eq, old)))
                old,
          )
    ];
  }

  pub Owned-discard :
      (gone : ObjectId)
      → ((ty : TypeId) (p : Address) → ¬ Owns fin users gone ty p)
      → Owned fin (removed gone users) heap
  Owned-discard gone foreign = record {
    box_of = λ object ty at own.
        owned.box_of object ty at (Owns-removed fin users gone object ty at own).1;
    one_owner = λ object other ty1 ty2 at own1 own2.
        owned.one_owner object other ty1 ty2 at (Owns-removed fin users gone object ty1 at own1).1
          (Owns-removed fin users gone other ty2 at own2).1;
    owner_of = λ at b held.
        let (object, old) = owned.owner_of at b held in
        (
          object,
          Owns-kept fin users gone object b.type_id at (λ e. foreign b.type_id at (rw e old)) old,
        );
  }
