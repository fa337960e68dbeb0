-- ===== src/Cmd/Acl.antt =====
-- The commands of `toh acl` (cmd/acl): programs over the client of the admin API. A result is what is
-- printed, as a value, or the error that the command returns.
pub mod Lists
pub mod InForce
pub mod Init
pub mod Run
use toh.Base.{
  Text, text, same, Bool, true, false, ◌||◌, not, Option, none, some, List, [], ◌∷◌, ◌++◌,
  if◌then◌else◌, Result, ok, err,
}
use toh.Base.Int.{ℤ, pos, negsuc, ltb_ℤ}
use toh.Spec.Tools.{slice_index}
use toh.Api.{BytesUsage, no_usage, Limit, no_limit, ApiKey, Request, Response, Json}
use toh.Api.Client.{
  ClientError, acl_new_key, acl_del_key, acl_patch_limit, acl_get_limit, acl_get_usage,
  acl_del_usage, acl_show,
}

-- A nil slice and an empty one have the same elements.
abbrev pub elements : Option (List Text) → List Text
elements none = []
elements (some l) = l

-- `append` on what may be nil.
abbrev pub append : Option (List Text) → Text → Option (List Text)
append l e = some (elements l ++ e ∷ [])

-- Whether `SliceIndex` is negative.
abbrev pub is_missing : List Text → Text → Bool
is_missing l e = ltb_ℤ (slice_index l e) (pos 0)

-- The loop of `addWhitelist` and `addBlacklist`.
unfoldable pub add_items : List Text → Option (List Text) → Option (List Text)
add_items [] old = old
add_items (a ∷ args) old =
    add_items args (if is_missing (elements old) a then append old a else old)

-- The loop of `delWhitelist` and `delBlacklist`, with the new list so far, which is nil at first.
unfoldable pub del_items : List Text → List Text → Option (List Text) → Option (List Text)
del_items args [] new_list = new_list
del_items args (a ∷ old) new_list =
    del_items args old (if is_missing args a then append new_list a else new_list)

-- The options of `toh acl limit`.
pub record LimitOptions : Type 0 where
  pub key : Text
  pub reset : Bool
  pub bytes : Text
  pub in_bytes : Text
  pub out_bytes : Text

-- An option that is not empty replaces a size.
unfoldable pub updated : Text → Text → Text
updated new old = if same new [] then old else new

module _ {W : Type 0} (json : Json) (admin_key : Text)
    (transport : Request → W → Result Text Response × W) where
  -- A call whose error ends the command, and what follows it.
  unfoldable pub after_call :
      {A B : Type 0}
      → Result ClientError A × W
      → (A → W → Result ClientError B × W)
      → Result ClientError B × W
  after_call (err e, w) k = (err e, w)
  after_call (ok a, w) k = k a w

  -- `updateWhitelist` and `updateBlacklist`; the flags are what cobra has parsed.
  unfoldable pub update_whitelist :
      (Option (List Text) → Option (List Text))
      → Text
      → W
      → Result ClientError (Option (List Text)) × W
  unfolding after_call
  update_whitelist update key w = after_call (acl_get_limit json admin_key transport key w) (λ l w₁.
      let new = record l { whitelist = update l.whitelist } in
      after_call (acl_patch_limit json admin_key transport key (some new) w₁)
        (λ _ w₂. (ok new.whitelist, w₂)))

  unfoldable pub update_blacklist :
      (Option (List Text) → Option (List Text))
      → Text
      → W
      → Result ClientError (Option (List Text)) × W
  unfolding after_call
  update_blacklist update key w = after_call (acl_get_limit json admin_key transport key w) (λ l w₁.
      let new = record l { blacklist = update l.blacklist } in
      after_call (acl_patch_limit json admin_key transport key (some new) w₁)
        (λ _ w₂. (ok new.blacklist, w₂)))

  unfoldable pub add_whitelist : List Text → Text → W → Result ClientError (Option (List Text)) × W
  unfolding update_whitelist
  add_whitelist args = update_whitelist (add_items args)

  unfoldable pub del_whitelist : List Text → Text → W → Result ClientError (Option (List Text)) × W
  unfolding update_whitelist
  del_whitelist args = update_whitelist (λ old. del_items args (elements old) none)

  unfoldable pub reset_whitelist :
      List Text → Text → W → Result ClientError (Option (List Text)) × W
  unfolding update_whitelist
  reset_whitelist args = update_whitelist (λ old. some args)

  unfoldable pub add_blacklist : List Text → Text → W → Result ClientError (Option (List Text)) × W
  unfolding update_blacklist
  add_blacklist args = update_blacklist (add_items args)

  unfoldable pub del_blacklist : List Text → Text → W → Result ClientError (Option (List Text)) × W
  unfolding update_blacklist
  del_blacklist args = update_blacklist (λ old. del_items args (elements old) none)

  unfoldable pub reset_blacklist :
      List Text → Text → W → Result ClientError (Option (List Text)) × W
  unfolding update_blacklist
  reset_blacklist args = update_blacklist (λ old. some args)

  -- `aclLimit` once its flags are known.
  unfoldable pub acl_limit : LimitOptions → W → Result ClientError Limit × W
  unfolding after_call updated
  acl_limit opts w =
      if opts.reset
      then after_call (acl_patch_limit json admin_key transport opts.key none w)
          (λ _ w₁. (ok no_limit, w₁))
      else after_call (acl_get_limit json admin_key transport opts.key w) (λ l w₁.
        let new = record l {
          bytes = updated opts.bytes l.bytes;
          in_bytes = updated opts.in_bytes l.in_bytes;
          out_bytes = updated opts.out_bytes l.out_bytes;
        } in
        if not (same opts.bytes []) || (not (same opts.in_bytes []) || not (same opts.out_bytes []))
        then after_call (acl_patch_limit json admin_key transport opts.key (some new) w₁)
            (λ _ w₂. (ok new, w₂))
        else (ok new, w₁))

  unfoldable pub acl_usage : Bool → Text → W → Result ClientError BytesUsage × W
  unfolding after_call
  acl_usage reset key w =
      if reset
      then after_call (acl_del_usage json admin_key transport key w) (λ _ w₁. (ok no_usage, w₁))
      else acl_get_usage json admin_key transport key w

  unfoldable pub acl_new : Text → W → Result ClientError Text × W
  acl_new = acl_new_key json admin_key transport

  unfoldable pub acl_del : Text → W → Result ClientError Text × W
  unfolding after_call
  acl_del key w =
      after_call (acl_del_key json admin_key transport key w) (λ _ w₁. (ok (text "ok"), w₁))
