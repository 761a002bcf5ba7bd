-- ===== src/Shield/Masked.antt =====
-- internal/shield/session.go: what ShieldStruct gives, without the vault.
use pare.Common.{
  ◌≡◌, refl, All, Text, bytes, is_empty, Bool, Bool-cases, true, false, inl, inr, not, ◌&&◌, ◌||◌,
  Option, some, none, ◌++◌,
}
use pare.Crypto.{ok}
use pare.Shield.{
  Answer, done, Vault, State, Source, Shield, Session, new, session, marker, parse_tag,
}
use pare.Shield.Vaults.{IsVault}
use pare.Shield.Unshield.{is_hex}
use pare.Shield.Resolved.{IsSource, tokenize_done}
use pare.Shield.Walk.{
  Value, null, text, scalar, pointer, interface, slice, array, struct, Items, nil, cons, Fields,
  end, field, and_then, tagged_field, visit, chosen, walk, walk_items, walk_fields, shield_struct,
  masked_field, masked, masked_items, masked_fields, alias,
}

and_then_step :
    {S A B : Type 0} (m : Answer A × State S) (a : A) (k : A → State S → Answer B × State S)
    (b : Answer B)
    → m.0 ≡ done a
    → ((x : State S) → (k a x).0 ≡ b)
    → (and_then m k).0 ≡ b
and_then_step (done a', x) a k b e h = let f : a' ≡ a = cc in rw f (h x)
and_then_step (Answer.failed e', x) a k b e h = absurd (cc)

module _ (src : Source) (real : IsSource src) {S : Type 0} (v : Vault S) {IsToken : Text → Type 0}
    {IsClean : S → Type 0} (laws : IsVault v IsToken IsClean)
    (named : (hex : Text) → All (λ b. is_hex b ≡ true) hex → IsToken (bytes "tok_" ++ hex))
    {sh : Shield} (keyed : new sh.master ≡ ok sh) (id : Text) where
  abbrev here : Session
  here = session src sh id

  text_done :
      (kind t : Text) (x : State S)
      → (tagged_field src v here kind true (text t) x).0
        ≡ done (masked_field (alias src here) kind true (text t))
  unfolding marker
  text_done kind t x = elim (Bool-cases (is_empty t)) [
    | inl e ↦
        and_then_step _ _ _ _ (tokenize_done src real v laws named keyed id kind t x)
          (λ y. rw e refl)
    | inr e ↦
        and_then_step _ _ _ _ (tokenize_done src real v laws named keyed id kind t x)
          (λ y. rw e refl)
  ]

  tagged_field-masked_field :
      (kind : Text) (settable : Bool) (w : Value) (x : State S)
      → (tagged_field src v here kind settable w x).0
        ≡ done (masked_field (alias src here) kind settable w)
  tagged_field-masked_field kind true (text t) x = text_done kind t x
  tagged_field-masked_field kind false (text t) x = refl
  tagged_field-masked_field kind settable null x = refl
  tagged_field-masked_field kind settable (scalar n) x = refl
  tagged_field-masked_field kind settable (pointer w) x = refl
  tagged_field-masked_field kind settable (interface w) x = refl
  tagged_field-masked_field kind settable (slice w) x = refl
  tagged_field-masked_field kind settable (array w) x = refl
  tagged_field-masked_field kind settable (struct w) x = refl

  visit-chosen :
      (tag : Option Text) (settable : Bool) (w inside : Value)
      (into : State S → Answer Value × State S) (x : State S)
      → (into x).0 ≡ done inside
      → (visit src v here tag settable w into x).0
        ≡ done (chosen (alias src here) tag settable w inside)
  visit-chosen (some kind) settable w inside into x e = tagged_field-masked_field kind settable w x
  visit-chosen none settable w inside into x e = e

  mutual
    unfolding walk masked

    walk-masked :
        (set hidden : Bool) (w : Value) (x : State S)
        → (walk src v here set hidden w x).0 ≡ done (masked (alias src here) set hidden w)
    walk-masked set hidden null x = refl
    walk-masked set hidden (text t) x = refl
    walk-masked set hidden (scalar n) x = refl
    walk-masked set hidden (pointer w) x =
        and_then_step _ _ _ _ (walk-masked true hidden w x) (λ y. refl)
    walk-masked set hidden (interface w) x =
        and_then_step _ _ _ _ (walk-masked false hidden w x) (λ y. refl)
    walk-masked set hidden (slice ws) x =
        and_then_step _ _ _ _ (items_done true hidden ws x) (λ y. refl)
    walk-masked set hidden (array ws) x =
        and_then_step _ _ _ _ (items_done set hidden ws x) (λ y. refl)
    walk-masked set hidden (struct fs) x =
        and_then_step _ _ _ _ (fields_done set hidden fs x) (λ y. refl)

    items_done :
        (set hidden : Bool) (ws : Items) (x : State S)
        → (walk_items src v here set hidden ws x).0
          ≡ done (masked_items (alias src here) set hidden ws)
    items_done set hidden nil x = refl
    items_done set hidden (cons w ws) x =
        and_then_step _ _ _ _ (walk-masked set hidden w x)
          (λ y. and_then_step _ _ _ _ (items_done set hidden ws y) (λ z. refl))

    fields_done :
        (set hidden : Bool) (fs : Fields) (x : State S)
        → (walk_fields src v here set hidden fs x).0
          ≡ done (masked_fields (alias src here) set hidden fs)
    fields_done set hidden end x = refl
    fields_done set hidden (field tag exported w fs) x =
        and_then_step _ _ _ _
          (visit-chosen (parse_tag tag) (set && not hidden && exported) w _ _ x
            (walk-masked set (hidden || not exported) w x))
          (λ y. and_then_step _ _ _ _ (fields_done set hidden fs y) (λ z. refl))

  -- ShieldStruct always answers, and what it gives is the result that it is given with the marker of
  -- the session in the place of every tagged string that is not empty and can be set, and nothing else
  -- changed, whatever the vault holds.
  pub shield_struct-masked :
      (w : Value) (x : State S)
      → (shield_struct src v here w x).0 ≡ done (masked (alias src here) false false w)
  unfolding shield_struct
  shield_struct-masked w x = walk-masked false false w x
