-- ===== src/Tests/Access.antt =====
-- Tokens and accounts.
use mentos_backend.Common.{◌≡◌, ◌==◌, refl, false, none, some, [], ◌∷◌, text, same}
use mentos_backend.Model.{
  User, UserStatus, RefreshToken, UserToken, UserTokenPurpose, link_invalid, World, empty_db,
  empty_world,
}
use mentos_backend.Orm.{reference, reference-Documented, ok, err}
use mentos_backend.Tokens.{
  Settings, RefreshContext, issue_user_token, redeem_user_token, rotate_refresh_token,
  issue_refresh_token, revoke_all_for_user,
}
use mentos_backend.Tokens.Redemption.{redeem_user_token-once, issue_user_token-redeem_user_token}
use mentos_backend.Tokens.Rotation.{Replayed, rotate_refresh_token-Replayed}
use mentos_backend.Users
use mentos_backend.Users.Inputs.{Platform, Random, trim}
use mentos_backend.Auth.{
  LoginDto, ResetPasswordDto, ChangePasswordDto, AuthSession, login, logout_all, change_password,
  reset_password, accept_invite, issue_session, sign_access_token,
}
use mentos_backend.Auth.Ttl.{parse_ttl_seconds}
use mentos_backend.Auth.Sessions.{IsSignedOut, logout_all-IsSignedOut}
use mentos_backend.Auth.Passwords.{IsRenewed, change_password-IsRenewed, reset_password-IsRenewed}
use mentos_backend.Auth.Entry.{Admitted, login-Admitted}
use mentos_backend.Auth.Reactivation.{IsActivated, accept_invite-IsActivated}
use mentos_backend.Auth.Suspension.{toggle_status-IsSignedOut}
use mentos_backend.Tests.Sample.{req}

abbrev settings : Settings
settings = record { invite_ttl_minutes = none; reset_ttl_minutes = none; refresh_ttl_days = none }

-- a platform that computes: hashing adds a letter, and the salt is left out
abbrev pub platform : Platform
platform = record {
  to_lower_case = λ s. s;
  sha256 = λ s. b'h' ∷ s;
  bcrypt_hash = λ salt s. b'b' ∷ s;
  bcrypt_compare = λ s h. same (b'b' ∷ s) h;
  sign = λ sub email tv. email;
  settings = settings;
}

abbrev pub random : Random
random = record { token = text "new"; id = 90; salt = [] }

abbrev pub ctx : RefreshContext
ctx = record { user_agent = none; ip = none }

abbrev pub neema : User
neema = record {
  id = 71;
  code = text "US-1";
  full_name = text "Neema";
  email = text "n@x.co";
  password_hash = some (b'b' ∷ text "pw");
  role_id = 81;
  status = UserStatus.active;
  mfa_enabled = false;
  last_login_at = none;
  token_version = 3;
}

abbrev session : RefreshToken
session = record {
  id = 82;
  token_hash = b'h' ∷ text "r1";
  user_id = 71;
  expires_at = 5_000;
  revoked_at = none;
  replaced_by_token_hash = none;
  user_agent = none;
  ip = none;
}

abbrev link : UserTokenPurpose → UserToken
link purpose = record {
  id = 83;
  token_hash = b'h' ∷ text "t1";
  user_id = 71;
  purpose = purpose;
  expires_at = 5_000;
  used_at = none;
}

abbrev staffed : UserStatus → UserTokenPurpose → World
staffed status purpose = record empty_world {
  db = record empty_db {
    users = record neema { status = status } ∷ [];
    refresh_tokens = session ∷ [];
    user_tokens = link purpose ∷ [];
  };
}

abbrev active : World
active = staffed UserStatus.active UserTokenPurpose.password_reset

redeemed_once :
    (redeem_user_token reference platform.sha256 settings 1_000
      (text "t1")
      UserTokenPurpose.password_reset
      active).0
    ≡ ok (record (link UserTokenPurpose.password_reset) { used_at = some 1_000 })
unfolding redeem_user_token
redeemed_once = refl

redeem_user_token-once_example :
    (redeem_user_token reference platform.sha256 settings 2_000
      (text "t1")
      UserTokenPurpose.password_reset
      (redeem_user_token reference platform.sha256 settings 1_000
        (text "t1")
        UserTokenPurpose.password_reset
        active).1).0
    ≡ err link_invalid
redeem_user_token-once_example =
    redeem_user_token-once reference reference-Documented platform.sha256 settings 1_000 2_000
      (text "t1") UserTokenPurpose.password_reset active
      (record (link UserTokenPurpose.password_reset) { used_at = some 1_000 }) redeemed_once

issued_new :
    (issue_user_token reference platform.sha256 settings req
      (text "t2")
      71
      UserTokenPurpose.password_reset
      active).0
    ≡ ok (record { token = text "t2"; expires_at = 3_601_000 })
unfolding issue_user_token
issued_new = refl

issue_user_token-redeem_user_token_example :
    (redeem_user_token reference platform.sha256 settings 2_000
      (text "t1")
      UserTokenPurpose.password_reset
      (issue_user_token reference platform.sha256 settings req
        (text "t2")
        71
        UserTokenPurpose.password_reset
        active).1).0
    ≡ err link_invalid
issue_user_token-redeem_user_token_example =
    issue_user_token-redeem_user_token reference reference-Documented platform.sha256 settings req
      2_000 (text "t1") (text "t2") UserTokenPurpose.password_reset active
      (link UserTokenPurpose.password_reset) (record { token = text "t2"; expires_at = 3_601_000 })
      refl issued_new

rotated_once :
    (rotate_refresh_token reference platform.sha256 settings req
      (text "r1")
      (text "r2")
      ctx
      active).0
    ≡ ok (71, record { token = text "r2"; expires_at = 604_801_000 })
unfolding rotate_refresh_token issue_refresh_token
rotated_once = refl

rotate_refresh_token-Replayed_example :
    Replayed reference platform.sha256 settings req req
      (text "r1")
      (text "r2")
      (text "r3")
      ctx
      ctx
      active
      71
rotate_refresh_token-Replayed_example =
    rotate_refresh_token-Replayed reference reference-Documented platform.sha256 settings req req
      (text "r1") (text "r2") (text "r3") ctx ctx active 71
      (record { token = text "r2"; expires_at = 604_801_000 }) rotated_once

logout_all-IsSignedOut_example :
    IsSignedOut reference 71 3 (logout_all reference platform none req neema active).1
logout_all-IsSignedOut_example =
    logout_all-IsSignedOut reference reference-Documented platform none req neema active refl

abbrev new_password : ChangePasswordDto
new_password = record { current_password = text "pw"; password = text "pw2" }

changed : (change_password reference platform none req random neema new_password active).0 ≡ ok tt
unfolding change_password Users.find_by_email Users.normalize_email trim revoke_all_for_user
changed = refl

change_password-IsRenewed_example :
    IsRenewed reference 71 3
      (text "bpw2")
      (change_password reference platform none req random neema new_password active).1
change_password-IsRenewed_example =
    change_password-IsRenewed reference reference-Documented platform none req random neema
      new_password active refl changed

abbrev by_link : ResetPasswordDto
by_link = record { token = text "t1"; password = text "pw2" }

reset : (reset_password reference platform none req random by_link active).0 ≡ ok tt
unfolding reset_password redeem_user_token Users.find_by_id revoke_all_for_user
reset = refl

reset_password-IsRenewed_example :
    IsRenewed reference 71 3
      (text "bpw2")
      (reset_password reference platform none req random by_link active).1
reset_password-IsRenewed_example =
    reset_password-IsRenewed reference reference-Documented platform none req random by_link active
      (link UserTokenPurpose.password_reset) neema refl refl refl reset

abbrev credentials : LoginDto
credentials = record { email = text " n@x.co"; password = text "pw" }

abbrev new_session : User → AuthSession
new_session u = record {
  tokens = record { access_token = text "n@x.co"; refresh_token = text "new"; expires_in = 900 };
  user = u;
  perms = [];
}

logged_in :
    (login reference platform none req random ctx credentials active).0 ≡ ok (new_session neema)
unfolding login Users.find_by_email Users.normalize_email trim issue_session issue_refresh_token
    sign_access_token parse_ttl_seconds
logged_in = refl

login-Admitted_example : Admitted platform credentials active (new_session neema)
login-Admitted_example =
    login-Admitted reference reference-Documented platform none req random ctx credentials active
      (new_session neema) logged_in

abbrev barred : World
barred = staffed UserStatus.suspended UserTokenPurpose.invite

abbrev welcomed : User
welcomed = record neema { password_hash = some (text "bpw2") }

accepted :
    (accept_invite reference platform none req random ctx by_link barred).0
    ≡ ok (new_session welcomed)
unfolding accept_invite redeem_user_token Users.find_by_id issue_session issue_refresh_token
    sign_access_token parse_ttl_seconds trim
accepted = refl

accept_invite-IsActivated_example :
    IsActivated
      (text "bpw2")
      (record neema { status = UserStatus.suspended })
      (accept_invite reference platform none req random ctx by_link barred).1
      (new_session welcomed)
accept_invite-IsActivated_example =
    accept_invite-IsActivated reference reference-Documented platform none req random ctx by_link
      barred (link UserTokenPurpose.invite) (record neema { status = UserStatus.suspended })
      (new_session welcomed) refl refl refl refl accepted

abbrev out : User
out = record neema { status = UserStatus.suspended; token_version = 4 }

toggled : (Users.toggle_status reference platform req (text "US-1") 72 active).0 ≡ ok out
unfolding Users.toggle_status
toggled = refl

toggle_status-IsSignedOut_example :
    ((71 == 72) ≡ false)
    × IsSignedOut reference 71 3
        (Users.toggle_status reference platform req (text "US-1") 72 active).1
toggle_status-IsSignedOut_example =
    toggle_status-IsSignedOut reference reference-Documented platform req (text "US-1") 72 neema
      active out refl refl refl toggled
