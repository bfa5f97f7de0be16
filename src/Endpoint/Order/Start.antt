-- ===== src/Endpoint/Order/Start.antt =====
-- A new endpoint.
use qmux_go.Base.{Bool, inl, inr, refl, ℕ}
use qmux_go.Config.{Config}
use qmux_go.Endpoint.{new_endpoint, parameters_record}
use qmux_go.Endpoint.Order.{IsOrdered}
use qmux_go.Varint.{Varint}

pub new_endpoint-IsOrdered :
    ⦃q : Varint⦄ (now : ℕ) (cfg : Config) (is_server : Bool)
    → IsOrdered (parameters_record cfg) (new_endpoint now cfg is_server)
unfolding new_endpoint
new_endpoint-IsOrdered now cfg is_server = record {
  ending = inl refl;
  turn = inl (refl, refl);
  opening = inr (inl (refl, refl));
  tally = refl;
}
