-- ===== src/Bytecode/Opcode.antt =====
-- src/include/vm/instruction.h: the opcodes with their numbers, and the instruction.
pub mod Codes
pub mod Known
pub mod Names
pub mod Tables
use vxx.Prelude.Int.{ℤ}

pub data Opcode : Type 0 where
  op_cong op_tru op_nhan op_chia op_logic_va op_logic_hoac op_khong op_so_sanh_bang : Opcode
  op_khac_bang op_lon_hon op_nho_hon op_lon_hon_hoac_bang op_nho_hon_hoac_bang op_gan : Opcode
  op_mo_khoi op_dong_khoi op_mo_ngoac op_dong_ngoac op_mo_mang op_dong_mang : Opcode
  op_dong_lenh op_phay op_neu op_hoac op_neu_khong op_ket_thuc_neu op_lap op_khoi_tao : Opcode
  op_dieu_kien op_cap_nhat op_kiem_tra_sau op_ket_thuc_lap op_bo_qua op_thoat op_chuyen : Opcode
  op_truong_hop op_mac_dinh op_ket_thuc_chuyen op_ham op_goi op_tra_ve op_bien_so op_in : Opcode
  op_dung_chuong_trinh op_ten_bien_id op_ten_bien_gia_tri op_jump_if_false op_jump : Opcode
  op_modulo op_chuoi op_phu_dinh op_chon op_ca op_param op_cong_mot op_tru_mot : Opcode
  op_cong_gan op_tru_gan op_nhan_gan op_chia_gan op_modulo_gan op_dung_gia_tri : Opcode
  op_sai_gia_tri op_bien_so_float op_nem op_thu op_thu_ket_thuc op_bat_loi : Opcode
  op_rong_gia_tri op_map_literal op_goi_gian_tiep op_param_mac_dinh op_list_literal : Opcode
  op_doc_chi_so op_gan_chi_so op_tao_lop op_them_phuong_thuc op_tao_doi_tuong : Opcode
  op_doc_thuoc_tinh op_gan_thuoc_tinh op_goi_phuong_thuc op_tao_dong_bao : Opcode
  op_vm_bien_dich_phan_tich op_vm_dns_phan_giai op_vm_doc_bien_moi_truong : Opcode
  op_vm_dong_ho_dia_phuong op_vm_dong_ho_utc op_vm_duong_dan_ton_tai op_vm_io_doc_bytes : Opcode
  op_vm_io_doc_file op_vm_io_ghi_bytes op_vm_io_ghi_file op_vm_io_ghi_tiep_file : Opcode
  op_vm_kich_ban_chay op_vm_ky_tu_unicode op_vm_la_tep : Opcode
  op_vm_la_thu_muc_khong_theo_lien_ket op_vm_la_thu_muc op_vm_liet_ke_thu_muc : Opcode
  op_vm_ma_diem_unicode op_vm_ngau_nhien_bao_mat_bytes op_vm_ngu_mili_giay : Opcode
  op_vm_so_thuc_bits op_vm_so_thuc_dac_biet op_vm_socket_chap_nhan : Opcode
  op_vm_socket_dat_timeout op_vm_socket_dong op_vm_socket_gui op_vm_socket_nhan : Opcode
  op_vm_socket_phan_giai op_vm_socket_tcp_lang_nghe op_vm_socket_tcp_mo : Opcode
  op_vm_socket_tls_nang_cap op_vm_socket_udp_mo op_vm_tao_thu_muc op_vm_task_cancel : Opcode
  op_vm_task_schedule op_vm_task_status op_vm_task_wait op_vm_ten_nen_tang : Opcode
  op_vm_thoi_gian_don_dieu_ms op_vm_tien_trinh_chay op_vm_xoa_duong_dan : Opcode
  op_vm_thread_spawn op_vm_thread_wait op_vm_thread_cancel op_vm_thread_status : Opcode
  op_vm_thread_park op_vm_tuple_from_list op_vm_type_of op_vm_identity_hash : Opcode
  op_vm_length op_vm_list_append op_vm_list_remove op_vm_map_has op_vm_map_remove : Opcode
  op_vm_map_keys op_vm_string_bytes op_vm_string_from_bytes op_vm_float_from_bits : Opcode
  op_ffi_call op_vm_bytecode_chay op_native_artifact_chay op_vm_machine_file_open : Opcode
  op_vm_machine_file_read op_vm_machine_file_write op_vm_machine_file_close : Opcode
  op_vm_machine_file_seek op_vm_machine_file_tell op_vm_machine_file_error : Opcode
  op_vm_machine_file_remove op_vm_machine_process_pid op_vm_machine_process_ppid : Opcode
  op_vm_machine_process_uid op_vm_machine_process_euid op_vm_machine_process_gid : Opcode
  op_vm_machine_process_egid op_vm_machine_time_sleep op_vm_machine_time_monotonic : Opcode
  op_vm_machine_time_realtime op_vm_machine_entropy_read op_vm_machine_env_get : Opcode
  op_vm_machine_time_local op_vm_machine_dir_mkdir op_vm_machine_dir_remove : Opcode
  op_vm_machine_dir_open op_vm_machine_dir_next op_vm_machine_dir_close : Opcode
  op_vm_machine_path_kind op_vm_machine_socket_kind op_vm_machine_socket_close : Opcode
  op_vm_machine_socket_timeout op_vm_machine_socket_send op_vm_machine_socket_recv : Opcode
  op_vm_machine_socket_accept op_vm_machine_socket_listen op_vm_machine_socket_connect : Opcode
  op_vm_machine_process_new op_vm_machine_process_arg : Opcode
  op_vm_machine_process_command_line op_vm_machine_process_env : Opcode
  op_vm_machine_process_start op_vm_machine_process_poll op_vm_machine_process_read : Opcode
  op_vm_machine_process_wait op_vm_machine_process_error op_vm_machine_process_close : Opcode
  op_vm_machine_resolve_open op_vm_machine_resolve_next op_vm_machine_resolve_close : Opcode
  op_vm_machine_tls_upgrade op_vm_machine_tls_send op_vm_machine_tls_recv : Opcode

-- `op` is the raw number, to be checked before it is cast.
pub record Instruction : Type 0 where
  pub op : ℤ
  pub operand : ℤ
  pub operand_index : ℤ
  pub operand_value : ℤ
