-- ===== src/Redis/Keys.antt =====
-- libs/redis_store/keys.py: the key patterns, with their arguments filled in, and the times.
use rdpproxy_v.Prelude.{ℕ, ◌++◌}
use rdpproxy_v.Prelude.Text.{Text, codes}

abbrev pub token : Text → Text
token t = codes "rdp:token:" ++ t

abbrev pub web_session : Text → Text
web_session id = codes "rdp:web:" ++ id

abbrev pub admin_web_session : Text → Text
admin_web_session id = codes "rdp:admin:web:" ++ id

abbrev pub active_session : Text → Text → Text
active_session instance_id connection_id =
    codes "rdp:active:" ++ (instance_id ++ (codes ":" ++ connection_id))

abbrev pub kill_session : Text → Text
kill_session id = codes "rdp:kill:" ++ id

abbrev pub conn_token : Text → Text
conn_token id = codes "rdp:conn-token:" ++ id

abbrev pub portal_fail_ip : Text → Text
portal_fail_ip ip = codes "rdp:fail:ip:" ++ ip

abbrev pub portal_fail_user : Text → Text
portal_fail_user name = codes "rdp:fail:user:" ++ name

abbrev pub portal_lock_ip : Text → Text
portal_lock_ip ip = codes "rdp:lock:ip:" ++ ip

abbrev pub portal_lock_user : Text → Text
portal_lock_user name = codes "rdp:lock:user:" ++ name

abbrev pub admin_fail_ip : Text → Text
admin_fail_ip ip = codes "rdp:admin:fail:ip:" ++ ip

abbrev pub admin_fail_user : Text → Text
admin_fail_user name = codes "rdp:admin:fail:user:" ++ name

abbrev pub admin_lock_ip : Text → Text
admin_lock_ip ip = codes "rdp:admin:lock:ip:" ++ ip

abbrev pub admin_lock_user : Text → Text
admin_lock_user name = codes "rdp:admin:lock:user:" ++ name

abbrev pub settings_changed_channel : Text
settings_changed_channel = codes "rdp:settings:changed"

abbrev pub kill_ttl : ℕ
kill_ttl = 60

abbrev pub fail_counter_ttl : ℕ
fail_counter_ttl = 60
