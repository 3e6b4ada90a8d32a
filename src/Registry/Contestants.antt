-- ===== src/Registry/Contestants.antt =====
-- What a registered contestant is afterwards.
use iicpc_distributed_benchm.Base.{
  ◌≡◌, ◌≢◌, refl, ap, ◌∙◌, true, false, none, some, ◌++◌, Text, text, text_eq, ne→text_eq,
  text_eq_refl, if◌then◌else◌, done,
}
use iicpc_distributed_benchm.Redis.{Redis, RedisLaws}
use iicpc_distributed_benchm.Registry.{
  Json, Contestant, value, already_exists, Trip, answered, register_contestant, get_contestant,
}

module _ (r : Redis) (laws : RedisLaws r) (json : Json Contestant) where
  open r use {S, get, exists_key, set_key, sadd}

  abbrev contestant_key : Text → Text
  contestant_key id = text "contestant:" ++ id

  abbrev registered : Contestant → S → S
  registered c s = sadd (text "contestants") c.id (set_key (contestant_key c.id) (json.marshal c) s)

  -- No contestant's key is that of the set.
  set_apart : (id : Text) → text_eq (text "contestants") (contestant_key id) ≡ false
  unfolding text_eq
  set_apart id = refl

  same_key : (i j : Text) → text_eq (contestant_key i) (contestant_key j) ≡ text_eq i j
  unfolding text_eq
  same_key i j = refl

  get-registered :
      (c : Contestant) (j : Text) (s : S)
      → get (registered c s) (contestant_key j)
        ≡ (if text_eq c.id j then some (json.marshal c) else get s (contestant_key j))
  get-registered c j s =
      laws.get-sadd (text "contestants") (contestant_key j) c.id _ (set_apart j)
      ∙ (laws.get-set (contestant_key c.id) (contestant_key j) (json.marshal c) s
          ∙ ap (λ b. if b then some (json.marshal c) else get s (contestant_key j))
              (same_key c.id j))

  exists-registered :
      (c : Contestant) (s : S) → exists_key (registered c s) (contestant_key c.id) ≡ true
  exists-registered c s =
      laws.exists-sadd (text "contestants") (contestant_key c.id) c.id _ (set_apart c.id)
      ∙ laws.exists-set (contestant_key c.id) (json.marshal c) s

  -- If no key of a contestant's id exists, package json reads back what it wrote of the contestant,
  -- and Redis answers: `RegisterContestant` succeeds; `GetContestant` then finds the contestant, and
  -- for every other id answers as before; and any later registration with the same id is refused and
  -- changes nothing.
  pub register_contestant-get :
      (c : Contestant) (s : S)
      → json.unmarshal (json.marshal c) ≡ done c
      → exists_key s (text "contestant:" ++ c.id) ≡ false
      → let (reply, s') = register_contestant r json none answered c s in
        (reply ≡ value tt)
        × (get_contestant r json none c.id s' ≡ value c)
        × ((j : Text) → c.id ≢ j → get_contestant r json none j s' ≡ get_contestant r json none j s)
        × ((c' : Contestant) (trip : Trip S)
            → c'.id ≡ c.id
            → register_contestant r json none trip c' s' ≡ (already_exists, s'))
  unfolding register_contestant get_contestant
  register_contestant-get c s back fresh = rw fresh (
    refl,
    rw (get-registered c c.id s, text_eq_refl c.id, back) refl,
    λ j ne. rw (get-registered c j s, ne→text_eq c.id j ne) refl,
    λ c' trip same. rw (same, exists-registered c s) refl,
  )
