-- ===== src/Plugins/Rounds.antt =====
-- The rounds of a call (companydata/plugin.go: call).
use company_data_go.Prelude.{
  ℕ, zero, suc, ◌+◌, ◌<◌, ◌≡◌, refl, String, Bool, true, false, not, ◌&&◌, ◌||◌, some, str_eq, ◌==◌,
  if◌then◌else◌, arith,
}
use company_data_go.Json.{Fields, get}
use company_data_go.Plugins.Elements.{as_string}
use company_data_go.Plugins.Pass.{Outcome, ok, failed, CallError, PluginPass, public_key_for}
use company_data_go.Plugins.Call.{
  Reply, Party, Next, reply_opened, resealed_with, renewed_pass, refused, Ended, judge_reply,
  after_pass, after_next, after_post, with_key, call_loop, max_rounds,
}

-- The chances that are left.
abbrev chances : Bool → Bool → ℕ
chances resealed renewed = (if resealed then 0 else 1) + (if renewed then 0 else 1)

-- Another round uses up one of the chances.
abbrev Spends : Bool → Bool → Next → Type 0
Spends resealed renewed reply_opened = Unit
Spends resealed renewed (resealed_with spki) = resealed ≡ false
Spends resealed renewed renewed_pass = renewed ≡ false
Spends resealed renewed (refused e) = Unit

judge_reply-Spends :
    (resealed renewed : Bool) (status : ℕ) (body : Fields)
    → Spends resealed renewed (judge_reply resealed renewed status body)
unfolding judge_reply
judge_reply-Spends resealed renewed status body =
    pick resealed renewed (status == 200) (status == 409)
      (str_eq (as_string (get body "error_key")) "plugin.key_changed")
      (status == 401 || status == 403) _ _
  where
    pick :
        (resealed renewed done conflict changed denied : Bool) (spki : String) (e : CallError)
        → Spends resealed renewed (
            if done
            then reply_opened
            else if conflict && changed && not resealed
            then resealed_with spki
            else if denied && not renewed
            then renewed_pass
            else refused e)
    pick resealed renewed true conflict changed denied spki e = tt
    pick false renewed false true true denied spki e = refl
    pick true false false true true true spki e = refl
    pick true true false true true true spki e = tt
    pick true renewed false true true false spki e = tt
    pick resealed false false true false true spki e = refl
    pick resealed true false true false true spki e = tt
    pick resealed renewed false true false false spki e = tt
    pick resealed false false false changed true spki e = refl
    pick resealed true false false changed true spki e = tt
    pick resealed renewed false false changed false spki e = tt

module _ {World PublicKey ReplyKey : Type 0} (party : Party World PublicKey ReplyKey) where
  abbrev Ends : Ended party → Type 0
  Ends e = (r : Outcome Fields) × (w : World) × (e ≡ some (r, w))

  -- The loop ends for every key and world.
  abbrev EndsAlways : (PluginPass → String → World → Ended party) → Type 0
  EndsAlways again = (pass : PluginPass) (spki : String) (w : World) → Ends (again pass spki w)

  call_loop-Ends :
      (rounds : ℕ) (resealed renewed : Bool) (id : String) (request : Fields)
      → chances resealed renewed < rounds
      → EndsAlways (call_loop party rounds resealed renewed id request)
  unfolding call_loop
  call_loop-Ends zero resealed renewed id request l pass spki w = absurd (omega arith)
  call_loop-Ends (suc rounds) resealed renewed id request l pass spki w =
      usable (str_eq spki "") _ _ (
        keyed (party.load_public_key spki)
          (λ e. call_loop-Ends rounds true renewed id request (first resealed renewed e l))
          (λ e. call_loop-Ends rounds resealed true id request (second resealed renewed e l)))
    where
      first :
          (resealed renewed : Bool)
          → resealed ≡ false
          → chances resealed renewed < suc rounds
          → chances true renewed < rounds
      first resealed renewed e l = ground arith

      second :
          (resealed renewed : Bool)
          → renewed ≡ false
          → chances resealed renewed < suc rounds
          → chances resealed true < rounds
      second resealed renewed e l = ground arith

      Again : Type 0
      Again = PluginPass → String → World → Ended party

      resealed_again : Again
      resealed_again p k v = call_loop party rounds true renewed id request p k v

      renewed_again : Again
      renewed_again p k v = call_loop party rounds resealed true id request p k v

      renew :
          (o : Outcome PluginPass × World)
          → EndsAlways renewed_again
          → Ends (after_pass party id renewed_again o)
      renew (failed e, v) ends = (failed e, v, refl)
      renew (ok p, v) ends = ends p (public_key_for p id) v

      next :
          (n : Next) (reply : Reply ReplyKey) (v : World)
          → Spends resealed renewed n
          → (resealed ≡ false → EndsAlways resealed_again)
          → (renewed ≡ false → EndsAlways renewed_again)
          → Ends (after_next party id pass reply resealed_again renewed_again n v)
      next reply_opened reply v s f g = (_, v, refl)
      next (resealed_with k) reply v s f g = f s pass k v
      next renewed_pass reply v s f g = renew (party.fetch_pass v) (g s)
      next (refused e) reply v s f g = (failed e, v, refl)

      posted :
          (o : Outcome (Reply ReplyKey) × World)
          → (resealed ≡ false → EndsAlways resealed_again)
          → (renewed ≡ false → EndsAlways renewed_again)
          → Ends (after_post party id pass resealed renewed resealed_again renewed_again o)
      posted (failed e, v) f g = (failed e, v, refl)
      posted (ok reply, v) f g =
          next (judge_reply resealed renewed reply.status reply.body) reply v
            (judge_reply-Spends resealed renewed reply.status reply.body) f g

      keyed :
          (o : Outcome PublicKey)
          → (resealed ≡ false → EndsAlways resealed_again)
          → (renewed ≡ false → EndsAlways renewed_again)
          → Ends (
              with_key party o w (λ key.
                after_post party id pass resealed renewed resealed_again renewed_again
                  (party.post pass id key request w)))
      keyed (failed e) f g = (failed e, w, refl)
      keyed (ok key) f g = posted (party.post pass id key request w) f g

      usable :
          (b : Bool) (r : Outcome Fields) (e : Ended party)
          → Ends e
          → Ends (if b then some (r, w) else e)
      usable true r e h = (_, w, refl)
      usable false r e h = h

  -- Whatever the forwarder answers, a call ends within three posts: the first, one with a new key
  -- and one with a new pass.
  pub call_loop_ends :
      (id : String) (request : Fields) (pass : PluginPass) (spki : String) (w : World)
      → (r : Outcome Fields) × (v : World) × (call_loop party max_rounds false false id request pass
            spki w
          ≡ some (r, v))
  call_loop_ends id request pass spki w =
      call_loop-Ends max_rounds false false id request (omega arith) pass spki w
