-- ===== src/Server/Serving/Streams.antt =====
-- The responses to a request, with those that its stream sends.
use dubbogo.Base.{ℕ, ◌≡◌, ◌⊎◌, none, List, [], ◌∷◌, ◌++◌, All}
use dubbogo.Hessian.Text.{Text}
use dubbogo.Server.Serving.{Package, Response, Served}

-- A response for a method of a service.
abbrev pub IsFor : Text → Text → Response → Type 0
IsFor s m r = (r.service ≡ s) × (r.method ≡ m)

-- Responses of a stream, and packages that it took.
abbrev Streams : Text → Text → List Package → List Response × List Package → Type 0
Streams s m ps (rs, rest) = All (IsFor s m) rs × ((taken : List Package) × (taken ++ rest ≡ ps))

-- The last response is under the number of the request, those before it are for the same method, and
-- the packages that are left are the last ones.
abbrev pub IsAnswered : Text → Text → ℕ → List Package → Served → Type 0
IsAnswered s m seq ps served =
    ((rs : List Response) × (r : Response) × (served.responses ≡ rs ++ (r ∷ []))
      × All (IsFor s m) rs
      × IsFor s m r
      × (r.seq ≡ seq))
    × ((taken : List Package) × (taken ++ served.rest ≡ ps))
    × ((served.error ≡ none) ⊎ ((served.called ≡ none) × (served.rest ≡ ps)))
