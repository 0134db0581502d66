-- ===== src/Native/Api.antt =====
-- src/skf/api.rs: `SkfApi`, which looks a function up by its name at each call.
pub mod Crypto
use liuzx_skf.Provider.{sar_couldnotgetfuncaddr}
use liuzx_skf.Native.{
  Library, Native, DevInfo, EccPublicKeyBlob, EccSignatureBlob, BlockCipherParam, EnvelopedKeyBlob,
  RsaPublicKeyBlob,
}
use liuzx_skf.Common.{Text, Bytes, text_eq, ℕ, Bool, Option, none, some, arith}

-- `match self.get_func(name) { Ok(f) => f(…), Err(_) => SAR_COULDNOTGETFUNCADDR }`: where the
-- function is missing, the out parameters keep what they held.
unfoldable pub get_func : {W F A : Type 0} → Option F → (F → Native W A) → A → Native W A
get_func none call before w = ((sar_couldnotgetfuncaddr, before), w)
get_func (some f) call before w = call f w

module _ {W : Type 0} (lib : Library W) where
  unfoldable pub wait_for_dev_event : Bytes → ℕ → ℕ → Native W (Bytes × ℕ × ℕ)
  unfolding get_func
  wait_for_dev_event dev_name dev_name_len event =
      get_func lib.skf_wait_for_dev_event (λ f. f dev_name dev_name_len event)
        (dev_name, dev_name_len, event)

  unfoldable pub cancel_wait_for_dev_event : Native W (Unit {0})
  unfolding get_func
  cancel_wait_for_dev_event = get_func lib.skf_cancel_wait_for_dev_event (λ f. f) tt

  unfoldable pub enum_dev : Bool → Option Bytes → ℕ → Native W (Option Bytes × ℕ)
  unfolding get_func
  enum_dev present name_list size =
      get_func lib.skf_enum_dev (λ f. f present name_list size) (name_list, size)

  unfoldable pub connect_dev : Text → ℕ → Native W ℕ
  unfolding get_func
  connect_dev name dev_handle = get_func lib.skf_connect_dev (λ f. f name dev_handle) dev_handle

  unfoldable pub dis_connect_dev : ℕ → Native W (Unit {0})
  unfolding get_func
  dis_connect_dev dev_handle = get_func lib.skf_dis_connect_dev (λ f. f dev_handle) tt

  unfoldable pub gen_random : ℕ → Bytes → ℕ → Native W Bytes
  unfolding get_func
  gen_random dev_handle random len =
      get_func lib.skf_gen_random (λ f. f dev_handle random len) random

  unfoldable pub enum_application : ℕ → Option Bytes → ℕ → Native W (Option Bytes × ℕ)
  unfolding get_func
  enum_application dev_handle app_names size =
      get_func lib.skf_enum_application (λ f. f dev_handle app_names size) (app_names, size)

  unfoldable pub open_application : ℕ → Text → ℕ → Native W ℕ
  unfolding get_func
  open_application dev_handle app_name app_handle =
      get_func lib.skf_open_application (λ f. f dev_handle app_name app_handle) app_handle

  unfoldable pub close_application : ℕ → Native W (Unit {0})
  unfolding get_func
  close_application app_handle = get_func lib.skf_close_application (λ f. f app_handle) tt

  unfoldable pub enum_container : ℕ → Option Bytes → ℕ → Native W (Option Bytes × ℕ)
  unfolding get_func
  enum_container app_handle container_names size =
      get_func lib.skf_enum_container (λ f. f app_handle container_names size)
        (container_names, size)

  unfoldable pub open_container : ℕ → Text → ℕ → Native W ℕ
  unfolding get_func
  open_container app_handle container_name container_handle =
      get_func lib.skf_open_container (λ f. f app_handle container_name container_handle)
        container_handle

  unfoldable pub close_container : ℕ → Native W (Unit {0})
  unfolding get_func
  close_container container_handle = get_func lib.skf_close_container (λ f. f container_handle) tt

  unfoldable pub export_certificate : ℕ → Bool → Bytes → ℕ → Native W (Bytes × ℕ)
  unfolding get_func
  export_certificate container_handle sign_flag cert size =
      get_func lib.skf_export_certificate (λ f. f container_handle sign_flag cert size) (cert, size)

  unfoldable pub verify_pin : ℕ → ℕ → Text → ℕ → Native W ℕ
  unfolding get_func
  verify_pin app_handle pin_type pin retry_count =
      get_func lib.skf_verify_pin (λ f. f app_handle pin_type pin retry_count) retry_count

  unfoldable pub get_container_type : ℕ → ℕ → Native W ℕ
  unfolding get_func
  get_container_type container_handle container_type =
      get_func lib.skf_get_container_type (λ f. f container_handle container_type) container_type

  unfoldable pub create_container : ℕ → Text → ℕ → Native W ℕ
  unfolding get_func
  create_container app_handle name container_handle =
      get_func lib.skf_create_container (λ f. f app_handle name container_handle) container_handle

  unfoldable pub delete_container : ℕ → Text → Native W (Unit {0})
  unfolding get_func
  delete_container app_handle name = get_func lib.skf_delete_container (λ f. f app_handle name) tt

  unfoldable pub import_certificate : ℕ → Bool → Bytes → ℕ → Native W (Unit {0})
  unfolding get_func
  import_certificate container_handle sign_flag cert cert_len =
      get_func lib.skf_import_certificate (λ f. f container_handle sign_flag cert cert_len) tt

  unfoldable pub change_pin : ℕ → ℕ → Text → ℕ → Text → Native W (Unit {0})
  unfolding get_func
  change_pin app_handle old_pin_type old_pin new_pin_type new_pin =
      get_func lib.skf_change_pin (λ f. f app_handle old_pin_type old_pin new_pin_type new_pin) tt

  unfoldable pub unblock_pin : ℕ → ℕ → Text → ℕ → Text → Native W (Unit {0})
  unfolding get_func
  unblock_pin app_handle puk_type puk new_pin_type new_pin =
      get_func lib.skf_unblock_pin (λ f. f app_handle puk_type puk new_pin_type new_pin) tt

  unfoldable pub get_pin_info : ℕ → ℕ → ℕ → ℕ → ℕ → Native W (ℕ × ℕ × ℕ)
  unfolding get_func
  get_pin_info app_handle pin_type max_len min_len retry_count =
      get_func lib.skf_get_pin_info (λ f. f app_handle pin_type max_len min_len retry_count)
        (max_len, min_len, retry_count)

  unfoldable pub create_application : ℕ → Text → Native W (Unit {0})
  unfolding get_func
  create_application dev_handle app_name =
      get_func lib.skf_create_application (λ f. f dev_handle app_name) tt

  unfoldable pub delete_application : ℕ → Text → Native W (Unit {0})
  unfolding get_func
  delete_application dev_handle app_name =
      get_func lib.skf_delete_application (λ f. f dev_handle app_name) tt

  unfoldable pub get_dev_info : ℕ → DevInfo → Native W DevInfo
  unfolding get_func
  get_dev_info dev_handle dev_info =
      get_func lib.skf_get_dev_info (λ f. f dev_handle dev_info) dev_info

  unfoldable pub get_dev_state : Text → ℕ → Native W ℕ
  unfolding get_func
  get_dev_state dev_name dev_state =
      get_func lib.skf_get_dev_state (λ f. f dev_name dev_state) dev_state

  unfoldable pub set_label : ℕ → Text → Native W (Unit {0})
  unfolding get_func
  set_label dev_handle label = get_func lib.skf_set_label (λ f. f dev_handle label) tt

  unfoldable pub lock_dev : ℕ → ℕ → Native W (Unit {0})
  unfolding get_func
  lock_dev dev_handle timeout = get_func lib.skf_lock_dev (λ f. f dev_handle timeout) tt

  unfoldable pub unlock_dev : ℕ → Native W (Unit {0})
  unfolding get_func
  unlock_dev dev_handle = get_func lib.skf_unlock_dev (λ f. f dev_handle) tt

  unfoldable pub transmit : ℕ → Bytes → ℕ → Bytes → ℕ → Native W (Bytes × ℕ)
  unfolding get_func
  transmit dev_handle command command_len response response_len =
      get_func lib.skf_transmit (λ f. f dev_handle command command_len response response_len)
        (response, response_len)
