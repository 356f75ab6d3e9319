-- ===== src/Ownership/Laws.antt =====
-- How the discipline of the counter passes through the ways of composing programs.
use ref_count.Common.{inl, inr}
use ref_count.Program.{ret, act, spinning, undefined, ◌>>=◌, swapped, failed}
use ref_count.Queue.Ops.{Method}
use ref_count.RefCount.Memory.{
  Waiter, Access, Response, load_count, store_count, fetch_sub_count, cas_count, queue, load_flag,
  store_flag, wake_task, Action, on_queue,
}
use ref_count.Ownership.{Holding, Allows, Keeps}

-- The rules only ask about the rest of the program what `Q` says.
pub Allows_mono :
    (e : Access) (g : Holding) {P Q : Response e → Holding → Type 0}
    → ((r : Response e) (g' : Holding) → P r g' → Q r g')
    → Allows e g P
    → Allows e g Q
Allows_mono load_count g f h =
    λ v lt. elim (h v lt) [ inl p ↦ inl (f v _ p) | inr p ↦ inr (p.0, p.1, f v _ p.2) ]
Allows_mono (cas_count c n) g f h = (
  h.0,
  elim h.1 [ inl p ↦ inl (p.0, p.1, f swapped _ p.2) | inr p ↦ inr (p.0, f swapped _ p.1) ],
  λ v lt. f (failed v) _ (h.2 v lt),
)
Allows_mono (store_count n) g f h = (h.0, h.1, f tt _ h.2)
Allows_mono (fetch_sub_count n) g f h = (h.0, h.1, λ v. f v _ (h.2 v))
Allows_mono (queue e) g f h = λ r. f r _ (h r)
Allows_mono (load_flag a) g f h = λ r. f r _ (h r)
Allows_mono (store_flag a b) g f h = f tt _ h
Allows_mono (wake_task w) g f h = f tt _ h

pub Keeps->>= :
    {A B : Type 0} (g : Holding) (m : Action A) (f : A → Action B) (P : A → Holding → Type 0)
    (Q : B → Holding → Type 0)
    → Keeps g m P
    → ((a : A) (g' : Holding) → P a g' → Keeps g' (f a) Q)
    → Keeps g (m >>= f) Q
Keeps->>= g (ret a) f P Q h k = k a g h
Keeps->>= g (act e m) f P Q h k = Allows_mono e g (λ r g' h'. Keeps->>= g' (m r) f P Q h' k) h
Keeps->>= g spinning f P Q h k = tt
Keeps->>= g undefined f P Q h k = tt

-- A call into the waiter queue does not touch the counter.
pub Keeps-on_queue :
    {A : Type 0} (g : Holding) (m : Method Waiter A) (Q : A → Holding → Type 0)
    → ((a : A) → Q a g)
    → Keeps g (on_queue m) Q
Keeps-on_queue g (ret a) Q h = h a
Keeps-on_queue g (act e k) Q h = λ r. Keeps-on_queue g (k r) Q h
Keeps-on_queue g spinning Q h = tt
Keeps-on_queue g undefined Q h = tt

pub Keeps-on_queue->>= :
    {A B : Type 0} (g : Holding) (m : Method Waiter A) (f : A → Action B) (Q : B → Holding → Type 0)
    → ((a : A) → Keeps g (f a) Q)
    → Keeps g (on_queue m >>= f) Q
Keeps-on_queue->>= g (ret a) f Q h = h a
Keeps-on_queue->>= g (act e k) f Q h = λ r. Keeps-on_queue->>= g (k r) f Q h
Keeps-on_queue->>= g spinning f Q h = tt
Keeps-on_queue->>= g undefined f Q h = tt
