-- ===== src/Authenticator/Verdict.antt =====
-- `PamAuthenticator::authenticate` of src/authenticator.cpp: whom it lets through, and when it mints a
-- ticket.
use voix.Base.{
  ℕ, ◌≡◌, refl, ap, ◌∙◌, Bool, not, ◌&&◌, ◌||◌, Option, none, some, Text, codes, arith, ◌==◌,
  nat_eq, list_eq, if◌then◌else◌,
}
use voix.Rule.{Rule}
use voix.Identity.{Accounts, PasswdEntry, get_current_username}
use voix.Tickets.{PrivateFiles, k_persist_ttl, valid, record_ticket}
use voix.Authenticator.{
  Pam, AuthState, select_credential_mode, validate_target_account, authenticate_by, mode_for,
  authenticate, options_of, check_target, refuse, finish, CredentialMode, is_rejected, needs_prompt,
}

module _ {S : Type 0} (files : PrivateFiles S) (accounts : Accounts) (pam : Pam) (dir : Text)
    (now : ℕ) (non_interactive : Bool) (rule : Option Rule) where
  -- A ticket of the persist option that is valid for this target.
  abbrev pub has_ticket : PasswdEntry → AuthState S → Bool
  has_ticket entry a =
      (options_of rule).persist
      && valid files a.tickets dir now k_persist_ttl accounts.getuid entry.uid

  -- The caller needs no credentials: a rule with nopass, or root.
  abbrev pub is_trusted : Bool
  is_trusted = (options_of rule).nopass || get_current_username accounts == codes "root"

  abbrev mode_for_entry : PasswdEntry → AuthState S → CredentialMode
  mode_for_entry entry a =
      mode_for files accounts pam dir now non_interactive (options_of rule) entry.uid a.tickets

  authenticate_entry :
      (target_user : Text) (entry : PasswdEntry) (a : AuthState S)
      → accounts.passwd_by_name target_user ≡ some entry
      → authenticate files accounts pam dir now non_interactive rule target_user a
        ≡ authenticate_by files accounts pam dir now
            (mode_for_entry entry a)
            (options_of rule).persist
            entry.uid
            (get_current_username accounts)
            (record a { last_error = none })
  unfolding authenticate
  authenticate_entry target_user entry a e = rw (e, authenticate) refl

  by_mode :
      (mode : CredentialMode) (persist : Bool) (uid : ℕ) (user : Text) (a : AuthState S)
      → (authenticate_by files accounts pam dir now mode persist uid user a).0
        ≡ not (is_rejected mode)
          && (pam.start
              && ((not (needs_prompt mode) || pam.authenticate)
                  && (pam.acct_mgmt && (pam.target_start && pam.target_acct_mgmt))))
  unfolding authenticate_by check_target refuse finish validate_target_account
  by_mode mode persist uid user a = ground arith

  by_flags :
      (nopass root persist ticket : Bool) (pam' : Pam)
      → (let mode =
            select_credential_mode nopass root persist (persist && ticket) non_interactive in
          not (is_rejected mode)
          && (pam'.start
              && ((not (needs_prompt mode) || pam'.authenticate)
                  && (pam'.acct_mgmt && (pam'.target_start && pam'.target_acct_mgmt)))))
        ≡ (pam'.start && (pam'.acct_mgmt && (pam'.target_start && pam'.target_acct_mgmt)))
          && ((nopass || root)
              || ((persist && ticket) || (not non_interactive && pam'.authenticate)))
  unfolding select_credential_mode
  by_flags nopass root persist ticket pam' = ground arith

  flags_of_mint :
      (nopass root persist ticket : Bool) (pam' : Pam)
      → persist
          && (needs_prompt
                (select_credential_mode nopass root persist (persist && ticket) non_interactive)
              && pam'.authenticate)
        ≡ persist
          && (not (nopass || root)
              && (not (persist && ticket) && (not non_interactive && pam'.authenticate)))
  unfolding select_credential_mode
  flags_of_mint nopass root persist ticket pam' = ground arith

  -- For a target that exists, authentication succeeds exactly if PAM starts for the caller and finds
  -- the caller's and the target's accounts usable, and the caller is trusted, holds a valid ticket of
  -- the persist option, or may be prompted and passes PAM's authentication.
  pub authenticate-verdict :
      (target_user : Text) (entry : PasswdEntry) (a : AuthState S)
      → accounts.passwd_by_name target_user ≡ some entry
      → (authenticate files accounts pam dir now non_interactive rule target_user a).0
        ≡ (pam.start && (pam.acct_mgmt && (pam.target_start && pam.target_acct_mgmt)))
          && (is_trusted || (has_ticket entry a || (not non_interactive && pam.authenticate)))
  authenticate-verdict target_user entry a e =
      rw (authenticate_entry target_user entry a e)
        (by_mode _ _ _ _ _ ∙ by_flags (options_of rule).nopass _ (options_of rule).persist _ pam)

  tickets_by_mode :
      (mode : CredentialMode) (persist : Bool) (uid : ℕ) (user : Text) (a : AuthState S)
      → let after = authenticate_by files accounts pam dir now mode persist uid user a in
        after.1.tickets ≡ (
          if after.0 && (persist && (needs_prompt mode && pam.authenticate))
          then (record_ticket files dir now accounts.getuid uid a.tickets).1
          else a.tickets)
  unfolding authenticate_by check_target refuse finish validate_target_account
  tickets_by_mode mode persist uid user a = ground arith

  -- For a target that exists, authentication records a ticket for the caller and the target exactly if
  -- it succeeds, the rule has persist, and the credentials were verified just now: the caller is not
  -- trusted, holds no valid ticket, may be prompted and passes PAM's authentication. Otherwise it
  -- leaves the tickets as they are.
  pub authenticate-tickets :
      (target_user : Text) (entry : PasswdEntry) (a : AuthState S)
      → accounts.passwd_by_name target_user ≡ some entry
      → let after = authenticate files accounts pam dir now non_interactive rule target_user a in
        after.1.tickets ≡ (
          if after.0
            && ((options_of rule).persist
                && (not is_trusted
                    && (not (has_ticket entry a) && (not non_interactive && pam.authenticate))))
          then (record_ticket files dir now accounts.getuid entry.uid a.tickets).1
          else a.tickets)
  authenticate-tickets target_user entry a e = rw (authenticate_entry target_user entry a e) (
      tickets_by_mode _ _ _ _ _
      ∙ ap
          (λ mint.
            if (authenticate_by files accounts pam dir now (mode_for_entry entry a)
                (options_of rule).persist entry.uid (get_current_username accounts)
                (record a { last_error = none })).0
              && mint
            then (record_ticket files dir now accounts.getuid entry.uid a.tickets).1
            else a.tickets)
          (flags_of_mint (options_of rule).nopass _ (options_of rule).persist _ pam))
