-- ===== src/Httpx/Middleware/Origins.antt =====
-- Which origins the cross-origin headers name, and in what order middleware runs.
use uban_z.Prelude.{
  String, false, not, ◌&&◌, ◌||◌, List, [], ◌∷◌, ◌++◌, any, Option, none, some, ◌≡◌, refl, ap, ◌==◌,
  eq_iff, arith, trim_space, Bool-cases, inl, inr,
}
use uban_z.Httpx.Middleware.{
  Request, Reply, Handler, chain, recover_panic, recovered, allowed_origins, allows,
}

allows-allowed_origins :
    (origins : List String) (origin : String)
    → (origin == "") ≡ false
    → ((allowed_origins origins).0 || any (λ o. o == origin) (allowed_origins origins).1)
      ≡ any (λ o. trim_space o == "*" || trim_space o == origin) origins
unfolding allowed_origins
allows-allowed_origins [] origin h = refl
allows-allowed_origins (o ∷ os) origin h = ground (
  arith,
  allows-allowed_origins os origin h,
  eq_iff (trim_space o) origin,
  eq_iff (trim_space o) "",
  eq_iff origin "",
  eq_iff (trim_space o) "*",
  eq_iff "*" "",
)

-- The loop over configured origins allows a request's origin exactly if it is not empty and one of
-- them is, without the spaces around it, `*` or that origin.
pub allows_lem :
    (origins : List String) (origin : String)
    → allows (allowed_origins origins) origin
      ≡ (not (origin == "") && any (λ o. trim_space o == "*" || trim_space o == origin) origins)
unfolding allows
allows_lem origins origin = elim (Bool-cases (origin == "")) [
  | inl e ↦ rw e refl
  | inr e ↦ rw (e, allows-allowed_origins origins origin e) refl
]

-- Every request is answered, whatever the handler inside does.
pub recover_panic-answers :
    {S : Type 0} (next : Handler S) (r : Request) (s : S)
    → (reply : Reply) × ((recover_panic next r s).0 ≡ some reply)
unfolding recover_panic
recover_panic-answers next r s = answered (next r s).0
  where
    answered : (o : Option Reply) → (reply : Reply) × (recovered o ≡ some reply)
    answered none = (_, refl)
    answered (some reply) = (reply, refl)

chain-append :
    {S : Type 0} (h : Handler S) (a b : List (Handler S → Handler S))
    → chain h (a ++ b) ≡ chain (chain h b) a
unfolding chain
chain-append h [] b = refl
chain-append h (m ∷ a) b = ap m (chain-append h a b)
