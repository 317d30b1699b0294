-- ===== src/Payment/Forgery.antt =====
-- Who can reach the database through the webhook (src/payment/service.py: `_verify_webhook`).
use logit_be.Common.{◌≡◌, true, String, eq_iff, arith}
use logit_be.Config.{Config}
use logit_be.Text.{get_or}
use logit_be.World.{World}
use logit_be.World.Action.{ok}
use logit_be.Payment.Webhook.{Form, setting_text, compare_digest, verify_webhook}

compare_digest_sound :
    (a b : String) (w : World)
    → ((compare_digest a b w).1 ≡ w) × ((compare_digest a b w).0 ≡ ok true → a ≡ b)
unfolding compare_digest
compare_digest_sound a b w = ground (arith, (eq_iff a b).0)

-- Verifying changes nothing, and succeeds for the three credentials only.
pub verify_webhook_sound :
    (cfg : Config) (form : Form) (w : World)
    → ((verify_webhook cfg form w).1 ≡ w)
      × ((verify_webhook cfg form w).0 ≡ ok true
          → (get_or "userid" "" form ≡ setting_text cfg.payapp_userid)
            × (get_or "linkkey" "" form ≡ setting_text cfg.payapp_linkkey)
            × (get_or "linkval" "" form ≡ setting_text cfg.payapp_linkval))
unfolding verify_webhook
verify_webhook_sound cfg form w =
    let p = compare_digest_sound (get_or "userid" "" form) (setting_text cfg.payapp_userid) w in
    let q = compare_digest_sound (get_or "linkkey" "" form) (setting_text cfg.payapp_linkkey) in
    let r = compare_digest_sound (get_or "linkval" "" form) (setting_text cfg.payapp_linkval) in
    ground (arith, p, q w, r w)
