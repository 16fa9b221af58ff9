-- ===== src/Cancellation.antt =====
-- internal/cancellation/registry.go: the registry of the contexts of running jobs.
-- A `context.CancelFunc` is the number of the context that it cancels. What `Cancel` cancels is
-- returned: the call happens after the mutex is released, and has no other effect on the registry.
use chroma_flow.Base.{
  ℕ, String, ◌≡◌, Bool, true, false, Option, none, some, [], ◌==◌, eq_refl, ap, ◌∙◌, if◌then◌else◌,
  arith,
}
use chroma_flow.Base.Dict
use chroma_flow.Base.Dict.{Dict, String-eq, get-put, get-del}

pub record Registry : Type 0 where
  pub cancels : Dict String ℕ

unfoldable pub new_registry : Registry
new_registry = record { cancels = [] }

-- `Register`; the function that it returns is `unregister id`.
unfoldable pub register : String → ℕ → Registry → Registry
register id ctx r = record r { cancels = Dict.put id ctx r.cancels }

unfoldable pub unregister : String → Registry → Registry
unregister id r = record r { cancels = Dict.del id r.cancels }

abbrev is_found : Option ℕ → Bool
is_found none = false
is_found (some ctx) = true

-- `Cancel`: the context that it cancels, if any, and whether the job was registered.
unfoldable pub cancel : String → Registry → Option ℕ × Bool
cancel id r = let ctx = Dict.get id r.cancels in (ctx, is_found ctx)

-- `Cancel` finds exactly the context that was registered last for a job and not unregistered
-- since: registering and unregistering one job decide what it answers for that job, and change
-- nothing for any other.
pub cancel-register-unregister :
    (id j : String) (ctx : ℕ) (r : Registry)
    → (cancel j (register id ctx r) ≡ (if id == j then (some ctx, true) else cancel j r))
      × (cancel j (unregister id r) ≡ (if id == j then (none, false) else cancel j r))
unfolding cancel register unregister
cancel-register-unregister id j ctx r =
    (ground (arith, get-put id j ctx r.cancels), ground (arith, get-del id j r.cancels))

pub cancel-unregister_self :
    (id : String) (r : Registry) → cancel id (unregister id r) ≡ (none, false)
cancel-unregister_self id r =
    (cancel-register-unregister id id 0 r).1
    ∙ ap (λ b. if b then (none, false) else cancel id r) (eq_refl id)
