-- ===== src/Bytecode/Opcode/Known.antt =====
-- src/bytecode/opcode.cpp: `isKnownOpcode`.
use vxx.Prelude.{Bool, true, false, Option, none, some}
use vxx.Prelude.Int.{ℤ}
use vxx.Bytecode.Opcode.Codes.{of_raw}
use vxx.Bytecode.Opcode.{
  Opcode, op_cong, op_tru, op_nhan, op_chia, op_logic_va, op_logic_hoac, op_khong, op_so_sanh_bang,
  op_khac_bang, op_lon_hon, op_nho_hon, op_lon_hon_hoac_bang, op_nho_hon_hoac_bang, op_gan,
  op_mo_khoi, op_dong_khoi, op_mo_ngoac, op_dong_ngoac, op_mo_mang, op_dong_mang, op_dong_lenh,
  op_phay, op_neu, op_hoac, op_neu_khong, op_ket_thuc_neu, op_lap, op_khoi_tao, op_dieu_kien,
  op_cap_nhat, op_kiem_tra_sau, op_ket_thuc_lap, op_bo_qua, op_thoat, op_chuyen, op_truong_hop,
  op_mac_dinh, op_ket_thuc_chuyen, op_ham, op_goi, op_tra_ve, op_bien_so, op_in,
  op_dung_chuong_trinh, op_ten_bien_id, op_ten_bien_gia_tri, op_jump_if_false, op_jump, op_modulo,
  op_chuoi, op_phu_dinh, op_chon, op_ca, op_param, op_cong_mot, op_tru_mot, op_cong_gan, op_tru_gan,
  op_nhan_gan, op_chia_gan, op_modulo_gan, op_dung_gia_tri, op_sai_gia_tri, op_bien_so_float,
  op_nem, op_thu, op_thu_ket_thuc, op_bat_loi, op_rong_gia_tri, op_map_literal, op_goi_gian_tiep,
  op_param_mac_dinh, op_list_literal, op_doc_chi_so, op_gan_chi_so, op_tao_lop, op_them_phuong_thuc,
  op_tao_doi_tuong, op_doc_thuoc_tinh, op_gan_thuoc_tinh, op_goi_phuong_thuc, op_tao_dong_bao,
  op_vm_bien_dich_phan_tich, op_vm_dns_phan_giai, op_vm_doc_bien_moi_truong,
  op_vm_dong_ho_dia_phuong, op_vm_dong_ho_utc, op_vm_duong_dan_ton_tai, op_vm_io_doc_bytes,
  op_vm_io_doc_file, op_vm_io_ghi_bytes, op_vm_io_ghi_file, op_vm_io_ghi_tiep_file,
  op_vm_kich_ban_chay, op_vm_la_tep, op_vm_la_thu_muc_khong_theo_lien_ket, op_vm_la_thu_muc,
  op_vm_liet_ke_thu_muc, op_vm_ngau_nhien_bao_mat_bytes, op_vm_ngu_mili_giay, op_vm_so_thuc_bits,
  op_vm_socket_chap_nhan, op_vm_socket_dat_timeout, op_vm_socket_dong, op_vm_socket_gui,
  op_vm_socket_nhan, op_vm_socket_phan_giai, op_vm_socket_tcp_lang_nghe, op_vm_socket_tcp_mo,
  op_vm_socket_tls_nang_cap, op_vm_socket_udp_mo, op_vm_tao_thu_muc, op_vm_ten_nen_tang,
  op_vm_thoi_gian_don_dieu_ms, op_vm_tien_trinh_chay, op_vm_xoa_duong_dan, op_vm_thread_spawn,
  op_vm_thread_wait, op_vm_thread_cancel, op_vm_thread_status, op_vm_thread_park,
  op_vm_tuple_from_list, op_vm_type_of, op_vm_identity_hash, op_vm_length, op_vm_list_append,
  op_vm_list_remove, op_vm_map_has, op_vm_map_remove, op_vm_map_keys, op_vm_string_bytes,
  op_vm_string_from_bytes, op_vm_float_from_bits, op_ffi_call, op_vm_bytecode_chay,
  op_native_artifact_chay, op_vm_machine_file_open, op_vm_machine_file_read,
  op_vm_machine_file_write, op_vm_machine_file_close, op_vm_machine_file_seek,
  op_vm_machine_file_tell, op_vm_machine_file_error, op_vm_machine_file_remove,
  op_vm_machine_process_pid, op_vm_machine_process_ppid, op_vm_machine_process_uid,
  op_vm_machine_process_euid, op_vm_machine_process_gid, op_vm_machine_process_egid,
  op_vm_machine_time_sleep, op_vm_machine_time_monotonic, op_vm_machine_time_realtime,
  op_vm_machine_entropy_read, op_vm_machine_env_get, op_vm_machine_time_local,
  op_vm_machine_dir_mkdir, op_vm_machine_dir_remove, op_vm_machine_dir_open, op_vm_machine_dir_next,
  op_vm_machine_dir_close, op_vm_machine_path_kind, op_vm_machine_socket_kind,
  op_vm_machine_socket_close, op_vm_machine_socket_timeout, op_vm_machine_socket_send,
  op_vm_machine_socket_recv, op_vm_machine_socket_accept, op_vm_machine_socket_listen,
  op_vm_machine_socket_connect, op_vm_machine_process_new, op_vm_machine_process_arg,
  op_vm_machine_process_command_line, op_vm_machine_process_env, op_vm_machine_process_start,
  op_vm_machine_process_poll, op_vm_machine_process_read, op_vm_machine_process_wait,
  op_vm_machine_process_error, op_vm_machine_process_close, op_vm_machine_resolve_open,
  op_vm_machine_resolve_next, op_vm_machine_resolve_close, op_vm_machine_tls_upgrade,
  op_vm_machine_tls_send, op_vm_machine_tls_recv,
}

-- The labels of the switch.
unfoldable pub is_known : Opcode → Bool
is_known op_cong = true
is_known op_tru = true
is_known op_nhan = true
is_known op_chia = true
is_known op_logic_va = true
is_known op_logic_hoac = true
is_known op_khong = true
is_known op_so_sanh_bang = true
is_known op_khac_bang = true
is_known op_lon_hon = true
is_known op_nho_hon = true
is_known op_lon_hon_hoac_bang = true
is_known op_nho_hon_hoac_bang = true
is_known op_gan = true
is_known op_mo_khoi = true
is_known op_dong_khoi = true
is_known op_mo_ngoac = true
is_known op_dong_ngoac = true
is_known op_mo_mang = true
is_known op_dong_mang = true
is_known op_dong_lenh = true
is_known op_phay = true
is_known op_neu = true
is_known op_hoac = true
is_known op_neu_khong = true
is_known op_ket_thuc_neu = true
is_known op_lap = true
is_known op_khoi_tao = true
is_known op_dieu_kien = true
is_known op_cap_nhat = true
is_known op_kiem_tra_sau = true
is_known op_ket_thuc_lap = true
is_known op_bo_qua = true
is_known op_thoat = true
is_known op_chuyen = true
is_known op_truong_hop = true
is_known op_mac_dinh = true
is_known op_ket_thuc_chuyen = true
is_known op_ham = true
is_known op_goi = true
is_known op_tra_ve = true
is_known op_bien_so = true
is_known op_in = true
is_known op_dung_chuong_trinh = true
is_known op_ten_bien_id = true
is_known op_ten_bien_gia_tri = true
is_known op_jump_if_false = true
is_known op_jump = true
is_known op_modulo = true
is_known op_chuoi = true
is_known op_phu_dinh = true
is_known op_chon = true
is_known op_ca = true
is_known op_param = true
is_known op_cong_mot = true
is_known op_tru_mot = true
is_known op_cong_gan = true
is_known op_tru_gan = true
is_known op_nhan_gan = true
is_known op_chia_gan = true
is_known op_modulo_gan = true
is_known op_dung_gia_tri = true
is_known op_sai_gia_tri = true
is_known op_bien_so_float = true
is_known op_nem = true
is_known op_thu = true
is_known op_thu_ket_thuc = true
is_known op_bat_loi = true
is_known op_rong_gia_tri = true
is_known op_map_literal = true
is_known op_goi_gian_tiep = true
is_known op_param_mac_dinh = true
is_known op_list_literal = true
is_known op_doc_chi_so = true
is_known op_gan_chi_so = true
is_known op_tao_lop = true
is_known op_them_phuong_thuc = true
is_known op_tao_doi_tuong = true
is_known op_doc_thuoc_tinh = true
is_known op_gan_thuoc_tinh = true
is_known op_goi_phuong_thuc = true
is_known op_tao_dong_bao = true
is_known op_vm_bien_dich_phan_tich = true
is_known op_vm_bytecode_chay = true
is_known op_native_artifact_chay = true
is_known op_vm_dns_phan_giai = true
is_known op_vm_doc_bien_moi_truong = true
is_known op_vm_dong_ho_dia_phuong = true
is_known op_vm_dong_ho_utc = true
is_known op_vm_duong_dan_ton_tai = true
is_known op_vm_io_doc_bytes = true
is_known op_vm_io_doc_file = true
is_known op_vm_io_ghi_bytes = true
is_known op_vm_io_ghi_file = true
is_known op_vm_io_ghi_tiep_file = true
is_known op_vm_kich_ban_chay = true
is_known op_vm_la_tep = true
is_known op_vm_la_thu_muc_khong_theo_lien_ket = true
is_known op_vm_la_thu_muc = true
is_known op_vm_liet_ke_thu_muc = true
is_known op_vm_ngau_nhien_bao_mat_bytes = true
is_known op_vm_ngu_mili_giay = true
is_known op_vm_so_thuc_bits = true
is_known op_vm_socket_chap_nhan = true
is_known op_vm_socket_dat_timeout = true
is_known op_vm_socket_dong = true
is_known op_vm_socket_gui = true
is_known op_vm_socket_nhan = true
is_known op_vm_socket_phan_giai = true
is_known op_vm_socket_tcp_lang_nghe = true
is_known op_vm_socket_tcp_mo = true
is_known op_vm_socket_tls_nang_cap = true
is_known op_vm_socket_udp_mo = true
is_known op_vm_tao_thu_muc = true
is_known op_vm_ten_nen_tang = true
is_known op_vm_thoi_gian_don_dieu_ms = true
is_known op_vm_tien_trinh_chay = true
is_known op_vm_xoa_duong_dan = true
is_known op_vm_thread_spawn = true
is_known op_vm_thread_wait = true
is_known op_vm_thread_cancel = true
is_known op_vm_thread_status = true
is_known op_vm_thread_park = true
is_known op_vm_tuple_from_list = true
is_known op_vm_type_of = true
is_known op_vm_identity_hash = true
is_known op_vm_length = true
is_known op_vm_list_append = true
is_known op_vm_list_remove = true
is_known op_vm_map_has = true
is_known op_vm_map_remove = true
is_known op_vm_map_keys = true
is_known op_vm_string_bytes = true
is_known op_vm_string_from_bytes = true
is_known op_vm_float_from_bits = true
is_known op_vm_machine_file_open = true
is_known op_vm_machine_file_read = true
is_known op_vm_machine_file_write = true
is_known op_vm_machine_file_close = true
is_known op_vm_machine_file_seek = true
is_known op_vm_machine_file_tell = true
is_known op_vm_machine_file_error = true
is_known op_vm_machine_file_remove = true
is_known op_vm_machine_process_pid = true
is_known op_vm_machine_process_ppid = true
is_known op_vm_machine_process_uid = true
is_known op_vm_machine_process_euid = true
is_known op_vm_machine_process_gid = true
is_known op_vm_machine_process_egid = true
is_known op_vm_machine_time_sleep = true
is_known op_vm_machine_time_monotonic = true
is_known op_vm_machine_time_realtime = true
is_known op_vm_machine_entropy_read = true
is_known op_vm_machine_env_get = true
is_known op_vm_machine_time_local = true
is_known op_vm_machine_dir_mkdir = true
is_known op_vm_machine_dir_remove = true
is_known op_vm_machine_dir_open = true
is_known op_vm_machine_dir_next = true
is_known op_vm_machine_dir_close = true
is_known op_vm_machine_path_kind = true
is_known op_vm_machine_socket_kind = true
is_known op_vm_machine_socket_close = true
is_known op_vm_machine_socket_timeout = true
is_known op_vm_machine_socket_send = true
is_known op_vm_machine_socket_recv = true
is_known op_vm_machine_socket_accept = true
is_known op_vm_machine_socket_listen = true
is_known op_vm_machine_socket_connect = true
is_known op_vm_machine_process_new = true
is_known op_vm_machine_process_arg = true
is_known op_vm_machine_process_command_line = true
is_known op_vm_machine_process_env = true
is_known op_vm_machine_process_start = true
is_known op_vm_machine_process_poll = true
is_known op_vm_machine_process_read = true
is_known op_vm_machine_process_wait = true
is_known op_vm_machine_process_error = true
is_known op_vm_machine_process_close = true
is_known op_vm_machine_resolve_open = true
is_known op_vm_machine_resolve_next = true
is_known op_vm_machine_resolve_close = true
is_known op_vm_machine_tls_upgrade = true
is_known op_vm_machine_tls_send = true
is_known op_vm_machine_tls_recv = true
is_known op_ffi_call = true
is_known _ = false

abbrev pub known? : Option Opcode → Bool
known? none = false
known? (some o) = is_known o

unfoldable pub is_known_opcode : ℤ → Bool
unfolding is_known
is_known_opcode raw = known? (of_raw raw)
