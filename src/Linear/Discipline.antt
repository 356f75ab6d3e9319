-- ===== src/Linear/Discipline.antt =====
-- How the discipline of Claims passes through the composition of programs.
use ref_count.Common.{ℕ, inl, inr}
use ref_count.Program.{ret, act, spinning, undefined, ◌>>=◌}
use ref_count.Queue.Memory.{
  Access, Response, load_head, load_tail, store_head, store_tail, cas_head, cas_tail, load_stamp,
  store_stamp, take_value, write_value, fence, spin_loop, yield_now,
}
use ref_count.Queue.Ops.{Method}
use ref_count.Linear.Claims.{Claim, Seen, Allows, Keeps}

module _ (capacity bits : ℕ) {T : Type 0} where
  pub Allows_mono :
      (e : Access T) (seen : Seen) (c : Claim T) {P Q : Response e → Seen → Claim T → Type 0}
      → ((r : Response e) (seen' : Seen) (c' : Claim T) → P r seen' c' → Q r seen' c')
      → Allows capacity bits e seen c P
      → Allows capacity bits e seen c Q
  Allows_mono load_head seen c f h = λ p fits le. let (c', e, q) = h p fits le in (c', e, f _ _ _ q)
  Allows_mono load_tail seen c f h = λ p fits le. let (c', e, q) = h p fits le in (c', e, f _ _ _ q)
  Allows_mono (cas_head s s') seen c f (lost, p, fits, es, es', ver, won) = (
    λ p fits le. f _ _ _ (lost p fits le),
    p,
    fits,
    es,
    es',
    ver,
    elim won [
      | inl (e, q) ↦ inl (e, λ v. f _ _ _ (q v))
      | inr (v, e, low, q) ↦ inr (v, e, low, λ old. f _ _ _ (q old))
    ],
  )
  Allows_mono (cas_tail s s') seen c f (lost, p, v, call, r, fits, e, app, es, es', ver, won) = (
    λ p fits le. f _ _ _ (lost p fits le),
    p,
    v,
    call,
    r,
    fits,
    e,
    app,
    es,
    es',
    ver,
    f _ _ _ won,
  )
  Allows_mono (load_stamp i) seen c f h =
      (h.0, λ p filled e fits le. f _ _ _ (h.1 p filled e fits le))
  Allows_mono (store_stamp i s) seen c f (p, v, e, h) = (
    p,
    v,
    e,
    elim h [
      | inl (r, e, es, q) ↦ inl (r, e, es, f _ _ _ q)
      | inr (inl (e, es, q)) ↦ inr (inl (e, es, f _ _ _ q))
      | inr (inr (old, e, es, q)) ↦ inr (inr (old, e, es, f _ _ _ q))
    ],
  )
  Allows_mono (take_value i) seen c f (p, v, e, h) = (
    p,
    v,
    e,
    elim h [ inl (ec, q) ↦ inl (ec, f _ _ _ q) | inr (new, ec, q) ↦ inr (new, ec, f _ _ _ q) ],
  )
  Allows_mono (write_value i v) seen c f (p, e, h) = (
    p,
    e,
    elim h [
      | inl (r, ec, q) ↦ inl (r, ec, f _ _ _ q)
      | inr (old, ec, q) ↦ inr (old, ec, f _ _ _ q)
    ],
  )
  Allows_mono fence seen c f h = f _ _ _ h
  Allows_mono (spin_loop n) seen c f h = f _ _ _ h
  Allows_mono yield_now seen c f h = f _ _ _ h
  Allows_mono (store_head n) seen c f h = h
  Allows_mono (store_tail n) seen c f (p, old, v, e, es, q) = (p, old, v, e, es, f _ _ _ q)

  pub Keeps->>= :
      {A B : Type 0} (seen : Seen) (c : Claim T) (m : Method T A) (f : A → Method T B)
      (P : A → Seen → Claim T → Type 0) (Q : B → Seen → Claim T → Type 0)
      → Keeps capacity bits seen c m P
      → ((a : A) (seen' : Seen) (c' : Claim T)
          → P a seen' c'
          → Keeps capacity bits seen' c' (f a) Q)
      → Keeps capacity bits seen c (m >>= f) Q
  Keeps->>= seen c (ret a) f P Q h k = k a seen c h
  Keeps->>= seen c (act e m) f P Q h k =
      Allows_mono e seen c (λ r seen' c' h'. Keeps->>= seen' c' (m r) f P Q h' k) h
  Keeps->>= seen c spinning f P Q h k = tt
  Keeps->>= seen c undefined f P Q h k = h
