-- ===== src/Api/Client/Frame.antt =====
-- What a request leaves alone.
use alorair_home_assistant.Base.{◌≡◌, List, ℕ, Option, arith}
use alorair_home_assistant.Api.Json.{Fields}
use alorair_home_assistant.Api.Request.{Method, CloudPath}
use alorair_home_assistant.Api.Client.{Vendor, World, request}

-- A request leaves the client as it was.
pub request-client :
    (vendor : Vendor) (method : Method) (path : CloudPath) (token : Option (List ℕ))
    (payload : Fields) (w : World)
    → (request vendor method path token payload w).1.client ≡ w.client
unfolding request
request-client vendor method path token payload w = ground arith
