-- ===== src/JudgeApi/Handlers/Registered.antt =====
-- A registration over HTTP, and what the API answers after it.
use iicpc_distributed_benchm.Base.{
  ℕ, ◌≤◌, ◌<◌, ◌≡◌, ◌≢◌, refl, ap, ◌∙◌, false, Option, none, Text, text, [], ◌∷◌, ◌++◌, length, All,
  done, arith,
}
use iicpc_distributed_benchm.Config.{is_empty}
use iicpc_distributed_benchm.Redis.{Redis, RedisLaws}
use iicpc_distributed_benchm.Registry.{Json, Contestant, Trip, answered, register_contestant}
use iicpc_distributed_benchm.Registry.Contestants.{register_contestant-get}
use iicpc_distributed_benchm.JudgeApi.Ids.{is_valid_id_iff, IsIdChar}
use iicpc_distributed_benchm.JudgeApi.Handlers.{
  http_err, json_resp, Registration, Messages, respond_one, respond_created, contestant_of,
  register_valid, post_contestant, get_contestant_by_id,
}

-- A registration that the API takes.
pub record IsAcceptable (body : Registration) : Type 0 where
  pub id_nonempty : 0 < length body.id
  pub id_short : length body.id ≤ 64
  pub id_chars : All IsIdChar body.id
  pub named : is_empty body.display_name ≡ false

module _ (r : Redis) (m : Messages) (json : Json Contestant) where
  open r use {S}

  is_empty-length : (s : Text) → 0 < length s → is_empty s ≡ false
  is_empty-length [] h = absurd (omega (arith, h))
  is_empty-length (c ∷ s) h = refl

  accepted_lem :
      (body : Registration) (fault : Option Text) (trip : Trip S) (now : ℕ) (s : S)
      → IsAcceptable body
      → post_contestant r m json fault trip (done body) now s
        ≡ register_valid r m json fault trip (contestant_of r m json body now) s
  unfolding post_contestant register_contestant
  accepted_lem body fault trip now s ok_body =
      rw
        (
          is_empty-length body.id ok_body.id_nonempty,
          ok_body.named,
          (is_valid_id_iff body.id).1 (ok_body.id_nonempty, ok_body.id_short, ok_body.id_chars),
        )
        refl

  -- A registration whose id has 1 to 64 letters, digits, hyphens and underscores and whose name is not
  -- empty, with an id that is not taken and such that package json reads back what it wrote, while
  -- Redis answers: it is answered by 201 with the contestant; a request for the contestant is then
  -- answered by 200 with the same, one for another id as before; and another acceptable registration
  -- of the id by 409, with nothing changed.
  pub post_contestant-get :
      (laws : RedisLaws r) (body again : Registration) (now later : ℕ) (trip : Trip S) (s : S)
      → IsAcceptable body
      → IsAcceptable again
      → again.id ≡ body.id
      → json.unmarshal (json.marshal (contestant_of r m json body now))
        ≡ done (contestant_of r m json body now)
      → r.exists_key s (text "contestant:" ++ body.id) ≡ false
      → let (response, s') = post_contestant r m json none answered (done body) now s in
        (response ≡ json_resp 201 (contestant_of r m json body now))
        × (get_contestant_by_id r m json none body.id s'
            ≡ json_resp 200 (contestant_of r m json body now))
        × ((j : Text)
            → body.id ≢ j
            → get_contestant_by_id r m json none j s' ≡ get_contestant_by_id r m json none j s)
        × (post_contestant r m json none trip (done again) later s'
            ≡ (http_err 409 m.already_exists, s'))
  unfolding get_contestant_by_id
  post_contestant-get laws body again now later trip s ok_body ok_again same back fresh =
      let c = contestant_of r m json body now in
      let g = register_contestant-get r laws json c s back fresh in
      rw (accepted_lem body none answered now s ok_body) (
        ap (respond_created m c) g.0,
        ap (respond_one m) g.1,
        λ j ne. ap (respond_one m) (g.2 j ne),
        accepted_lem again none trip later _ ok_again
            ∙ ap (λ out. (respond_created m (contestant_of r m json again later) out.0, out.1))
                (g.3 (contestant_of r m json again later) trip same),
      )
