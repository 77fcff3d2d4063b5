-- ===== src/Tunnel/Loop/Urls.antt =====
-- What the callback is told.
use onesilo_node.Base.{
  ◌≡◌, ◌≢◌, refl, sym, ◌∙◌, inl, inr, true, false, List, [], ◌∷◌, Text, text_eq, text_eq_iff,
  text_ne, Bool-cases,
}
use onesilo_node.Tunnel.{Tunnel, set_url, set_subscription_blocked}
use onesilo_node.Tunnel.Loop.{
  Round, is_cancelled, provision_fails, spawn_fails, runs_until_cancelled, exits, cancelled_at_once,
  cancelled_in_wait, waited, returns, continues, wait_for, refused, back_off, launched,
  spawn_failed, provision_failed, round, run_loop,
}

-- The URL that was announced last; at first there is none.
abbrev pub announced : List Text → Text
announced [] = []
announced (u ∷ l) = u

-- No announcement repeats the one before.
abbrev pub IsNews : List Text → Type 0
IsNews [] = Unit
IsNews (u ∷ l) = (u ≢ announced l) × IsNews l

pub record IsTold (url : Text) (notified : List Text) : Type 0 where
  pub current : announced notified ≡ url
  pub news : IsNews notified

abbrev pub IsAnnounced : Tunnel → Type 0
IsAnnounced t = IsTold t.url t.notified

set_url-IsAnnounced : (u : Text) (t : Tunnel) → IsAnnounced t → IsAnnounced (set_url u t)
unfolding set_url
set_url-IsAnnounced u t h = elim (Bool-cases (text_eq t.url u)) [
  | inl e ↦ rw e (record { current = h.current ∙ (text_eq_iff t.url u).0 e; news = h.news })
  | inr e ↦
      rw e (record {
        current = refl;
        news = ((λ x. text_ne t.url u e (sym h.current ∙ sym x)), h.news);
      })
]

set_url-url : (u : Text) (t : Tunnel) → (set_url u t).url ≡ u
unfolding set_url
set_url-url u t = elim (Bool-cases (text_eq t.url u)) [ inl e ↦ rw e refl | inr e ↦ rw e refl ]

launched-IsAnnounced : (u : Text) (t : Tunnel) → IsAnnounced t → IsAnnounced (launched u t)
unfolding launched
launched-IsAnnounced u t h = set_url-IsAnnounced u _ h

-- The tunnel is down, and this is what was announced.
pub record IsWithdrawn (t : Tunnel) : Type 0 where
  pub is_announced : IsAnnounced t
  pub down : t.url ≡ []

-- After a round that goes on, no URL stands.
round-IsAnnounced :
    (r : Round) (t : Tunnel)
    → IsWithdrawn t
    → IsAnnounced (round r t).0 × ((round r t).1 ≡ continues → (round r t).0.url ≡ [])
unfolding round provision_failed spawn_failed set_subscription_blocked refused back_off wait_for
round-IsAnnounced is_cancelled t h = (h.is_announced, λ e. absurd (cc))
round-IsAnnounced (provision_fails e cancelled_at_once) t h = (h.is_announced, λ e. absurd (cc))
round-IsAnnounced (provision_fails e cancelled_in_wait) t h = (h.is_announced, λ e. absurd (cc))
round-IsAnnounced (provision_fails e waited) t h = (h.is_announced, λ e. h.down)
round-IsAnnounced (spawn_fails cancelled_at_once) t h = (h.is_announced, λ e. absurd (cc))
round-IsAnnounced (spawn_fails cancelled_in_wait) t h = (h.is_announced, λ e. absurd (cc))
round-IsAnnounced (spawn_fails waited) t h = (h.is_announced, λ e. h.down)
round-IsAnnounced (runs_until_cancelled u) t h =
    (launched-IsAnnounced u _ h.is_announced, λ e. absurd (cc))
round-IsAnnounced (exits u true) t h =
    let m = record t { subscription_blocked = false } in
    (
      set_url-IsAnnounced [] (launched u m) (launched-IsAnnounced u m h.is_announced),
      λ e. set_url-url [] (launched u m),
    )
round-IsAnnounced (exits u false) t h =
    let m = record t { subscription_blocked = false } in
    (
      set_url-IsAnnounced [] (launched u m) (launched-IsAnnounced u m h.is_announced),
      λ e. set_url-url [] (launched u m),
    )

-- Whatever the loop meets, from a state in which the tunnel is down: after it, or while it waits, no
-- URL stands, the callback was told so last, if it was told anything, and it was never told the same
-- URL twice in a row.
pub run_loop-IsWithdrawn :
    (rs : List Round) (t : Tunnel) → IsWithdrawn t → IsWithdrawn (run_loop rs t)
unfolding run_loop
run_loop-IsWithdrawn [] t h = h
run_loop-IsWithdrawn (r ∷ rs) t h =
    let (a, down) = round-IsAnnounced r t h in
    (elim (round r t).1
        as (λ n.
          (n ≡ continues → (round r t).0.url ≡ [])
          → IsWithdrawn (elim n [
            | returns ↦ set_url [] (round r t).0
            | continues ↦ run_loop rs (round r t).0
          ])) [
            | returns ↦ λ d. record {
              is_announced = set_url-IsAnnounced [] (round r t).0 a;
              down = set_url-url [] (round r t).0;
            }
            | continues ↦
                λ d. run_loop-IsWithdrawn rs _ (record { is_announced = a; down = d refl })
          ])
      down
