-- ===== src/Shield/Walk.antt =====
-- internal/shield/session.go: ShieldStruct, the walk over a result by reflection.
--
-- A value is a tree: reflect is Go's, and what the walk asks of it is written out. A field can be set if
-- it is reached through a pointer or a slice and by exported names alone.
use pare.Common.{
  ℕ, Text, is_empty, Bool, true, false, not, ◌&&◌, ◌||◌, Option, none, some, if◌then◌else◌,
}
use pare.Shield.{
  Answer, failed, done, Vault, State, Source, Session, marker, token_id, parse_tag, tokenize,
}

mutual
  pub data Value : Type 0 where
    null : Value
    text : Text → Value
    -- A number, a truth value, a map: the walk leaves it alone.
    scalar : ℕ → Value
    pointer : Value → Value
    interface : Value → Value
    slice : Items → Value
    array : Items → Value
    struct : Fields → Value

  pub data Items : Type 0 where
    nil : Items
    cons : Value → Items → Items

  pub data Fields : Type 0 where
    end : Fields
    -- Its shield tag, whether its name is exported, and its value.
    field : Text → Bool → Value → Fields → Fields

module _ {S : Type 0} {A B : Type 0} where
  -- `if err != nil { return err }`
  abbrev pub and_then : Answer A × State S → (A → State S → Answer B × State S) → Answer B × State S
  and_then (failed e, x) f = (failed e, x)
  and_then (done a, x) f = f a x

module _ (src : Source) {S : Type 0} (v : Vault S) (s : Session) where
  -- A tagged field: a string that can be set gets its marker.
  abbrev pub tagged_field : Text → Bool → Value → State S → Answer Value × State S
  tagged_field kind settable (text t) x =
      if settable
      then and_then (tokenize src v s kind t x)
          (λ m y. (done (text (if is_empty m then t else m)), y))
      else (done (text t), x)
  tagged_field kind settable w x = (done w, x)

  -- One round of the loop over the fields: a tagged field is not walked into.
  abbrev pub visit :
      Option Text
      → Bool
      → Value
      → (State S → Answer Value × State S)
      → State S
      → Answer Value × State S
  visit (some kind) settable w into x = tagged_field kind settable w x
  visit none settable w into x = into x

  -- Session.walk; `set` and `hidden` say whether the value can be addressed, and whether a name on the
  -- way to it is not exported.
  unfoldable mutual
    pub walk : Bool → Bool → Value → State S → Answer Value × State S
    walk set hidden null x = (done null, x)
    walk set hidden (text t) x = (done (text t), x)
    walk set hidden (scalar n) x = (done (scalar n), x)
    walk set hidden (pointer w) x = and_then (walk true hidden w x) (λ r y. (done (pointer r), y))
    walk set hidden (interface w) x =
        and_then (walk false hidden w x) (λ r y. (done (interface r), y))
    walk set hidden (slice ws) x =
        and_then (walk_items true hidden ws x) (λ r y. (done (slice r), y))
    walk set hidden (array ws) x =
        and_then (walk_items set hidden ws x) (λ r y. (done (array r), y))
    walk set hidden (struct fs) x =
        and_then (walk_fields set hidden fs x) (λ r y. (done (struct r), y))

    pub walk_items : Bool → Bool → Items → State S → Answer Items × State S
    walk_items set hidden nil x = (done nil, x)
    walk_items set hidden (cons w ws) x =
        and_then (walk set hidden w x)
          (λ r y. and_then (walk_items set hidden ws y) (λ rs z. (done (cons r rs), z)))

    pub walk_fields : Bool → Bool → Fields → State S → Answer Fields × State S
    walk_fields set hidden end x = (done end, x)
    walk_fields set hidden (field tag exported w fs) x =
        and_then
          (visit (parse_tag tag) (set && not hidden && exported) w
            (walk set (hidden || not exported) w) x)
          (λ r y.
            and_then (walk_fields set hidden fs y) (λ rs z. (done (field tag exported r rs), z)))

  -- Session.ShieldStruct, for a pointer to a struct.
  unfoldable pub shield_struct : Value → State S → Answer Value × State S
  unfolding walk
  shield_struct w x = walk false false w x

-- The same walk with a text in the place of every tagged string: what a reader of the result may see.
module _ (pseudonym : Text → Text → Text) where
  abbrev pub masked_field : Text → Bool → Value → Value
  masked_field kind settable (text t) =
      if settable then text (if is_empty t then t else pseudonym kind t) else text t
  masked_field kind settable w = w

  abbrev pub chosen : Option Text → Bool → Value → Value → Value
  chosen (some kind) settable w inside = masked_field kind settable w
  chosen none settable w inside = inside

  unfoldable mutual
    pub masked : Bool → Bool → Value → Value
    masked set hidden null = null
    masked set hidden (text t) = text t
    masked set hidden (scalar n) = scalar n
    masked set hidden (pointer w) = pointer (masked true hidden w)
    masked set hidden (interface w) = interface (masked false hidden w)
    masked set hidden (slice ws) = slice (masked_items true hidden ws)
    masked set hidden (array ws) = array (masked_items set hidden ws)
    masked set hidden (struct fs) = struct (masked_fields set hidden fs)

    pub masked_items : Bool → Bool → Items → Items
    masked_items set hidden nil = nil
    masked_items set hidden (cons w ws) = cons (masked set hidden w) (masked_items set hidden ws)

    pub masked_fields : Bool → Bool → Fields → Fields
    masked_fields set hidden end = end
    masked_fields set hidden (field tag exported w fs) =
        field tag exported
          (chosen (parse_tag tag) (set && not hidden && exported) w
            (masked set (hidden || not exported) w))
          (masked_fields set hidden fs)

-- The pseudonym of a value in a session.
abbrev pub alias : Source → Session → Text → Text → Text
alias src s kind t = marker kind (token_id src s.key kind t)
